-- ===== src/Ctl/Addressing.antt =====
-- Which client a statement is for.
use cubrid_testkit.Prelude.{ℕ, ◌≤◌, ◌<◌, ◌≡◌, refl, true, ◌∷◌, ◌++◌, ltb, arith, Bytes}
use cubrid_testkit.Prelude.Strings.{decimal, max_int}
use cubrid_testkit.Prelude.Decimal.{decimal-number, span_digits-append, atoi-decimal}
use cubrid_testkit.Ctl.Command.{to_client, plain_command, skip_white, client_command, addressed}

-- `C<n>:` before a statement sends what follows to client n.
pub client_command-decimal :
    (n : ℕ) (text : Bytes)
    → 0 < n
    → n ≤ max_int
    → client_command (b'C' ∷ (decimal n ++ b':' ∷ text))
      ≡ record (plain_command to_client) { client = n; text = skip_white text }
unfolding client_command addressed
client_command-decimal n text pos fits =
    let positive : ltb 0 n ≡ true = ground arith in
    rw (span_digits-append (decimal n) b':' text (decimal-number n).1 refl, atoi-decimal n fits)
      (rw positive refl)
