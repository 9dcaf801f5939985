-- ===== src/Lib.antt =====
-- cubrid-testkit: a model of the core of the program that runs CUBRID's functional tests.
--
-- The program (cmd/testkit) reads configuration files (internal/conf), orders the cases of a
-- suite by what an earlier run measured (internal/plan), and hands them to worker slots from one
-- queue (internal/dispatch) under a policy that may hold a heavy case back. How many slots there
-- are is decided from what earlier runs measured (internal/sizing). An isolation case is a .ctl
-- file, which internal/ctl cuts into statements and classifies, and whose controller sends them
-- to the clients and waits for what the clients and the server answer. A performance session
-- (internal/perf) groups its cases by the configuration of the cluster they need, and bounds the
-- time each part may take. The summary files list their directories in the order of a Java hash
-- table (internal/result). A shell case writes into the scenario tree, and the run takes that
-- back when the last case of a directory has retired (internal/runner/shellsuite). A replication
-- case is cut into statements, its tables are given the key that replication needs, and its
-- statements go to csql in batches, whose output is taken apart again; an interrupted run goes
-- on from the verdicts in its ledger (internal/runner/hareplsuite).
--
--   Prelude    what the modules share: tests on numbers and bytes, lists, Go's maps (Dict), strings
--              as bytes (Strings, Split, Trim), sort.Slice (Sort, StringOrder), %d and Atoi
--              (Decimal)
--   Dispatch   internal/dispatch/policy.go (Admission: HeavyCap, Headroom, All, Heaviest) and
--              internal/dispatch/dispatch.go (Lanes: Lane and Ticket; Queue: the struct, New, the
--              scans and take; Claim: claimOnce; Complete: Complete, enqueue, Stop, Finished; Run:
--              sequences of the methods). The other modules are proofs: Window, Plain, Invariant,
--              Completion and Guarantees of runs without lanes; Holding, Sweep, LanedClaim,
--              LanedInvariant, LanedStep, LanedCompletion and LanedGuarantees of runs with them;
--              Ownership, Owners, Settled and OneSlot of who owns a directory
--   Plan       internal/plan/plan.go (Order: Order, Continue, Add, the order of Write's lines),
--              internal/plan/sizes.go (Sizes); Schedule, SizeLines and SizeFile are proofs
--   Conf       internal/conf/config.go (Text: unescape, splitEntry, substitute; Parse: parse and
--              ParseText; Config: set, Override and the reads) and internal/conf/ini.go (Ini:
--              LoadIni, Get, GetOr); Escapes, Entries, Consistency, Reads, Prefixes and Sections
--              are proofs
--   Ctl        internal/ctl/tables.go (Tables), internal/ctl/parse.go (Reader: NewReader, readRaw,
--              Next, Statements), internal/ctl/command.go (Command: Classify, toClient,
--              waitCommand, NumClients), internal/ctl/client.go (Client: send, readOutput, wrap,
--              close), internal/ctl/controller.go (Service: serviceUntil, selectOnce, reap;
--              Control: loop, toClient, the waits, endOfInput; Case: Run, and NextCompound of
--              parse.go); Split is the plain splitter that the reader is compared with;
--              Statements, Lexemes, Addressing, Follow, Sends, Outcomes, Orders, Script, Ends,
--              Termination and Gone are proofs
--   Perf       internal/perf/schedule.go (Schedule: confKey, confGroups, fixturesOf, the bounds);
--              Grouping, Groups, Keys, Fixtures and Bounds are proofs, Bounds with the byKey of
--              internal/perf/session.go
--   Shell      internal/runner/shellsuite/discover.go (Case: Split) and
--              internal/runner/shellsuite/corpus.go (Corpus: Plan, Retire; Tree: dropAdditions,
--              addedBytes, treeBytes); Segments, Directories, Retirement and Reclaim are proofs
--   Sizing     internal/sizing/sizing.go (Records: sameCorpus, peers, tried; Slots: knee,
--              corpusBound, budgetFor, Slots); Fit and Knee are proofs
--   Harepl     internal/runner/hareplsuite/statement.go (Statements: Statements, blockDelta,
--              IsRead), batch.go there (Batch: newBatchWith, splitResults, run, segments), convert.go
--              (Convert: columnNames, tableNameOf, indexAtDepth; Inserts: convertCreate,
--              nameColumns, Apply) and ledger.go (Ledger: Write, parseLedgerLine, Judged);
--              Whole, Cutting and Scripts are proofs on statements, Markers, Answers, Attribution
--              and Segments on batches, Heads, Conversion, KeyColumn and Pieces on the conversion,
--              Resume on the ledger
--   Isolation  internal/runner/isolationsuite/verdict.go (Verdict: judge, extractItems, by the bytes
--              of the output; Feedback: resultText, crlf); Passing is a proof
--   Result     internal/result/jhashtable.go (Utf16: what jhash walks; Jtable: the table whose order
--              the summary files have); Buckets, Growth, Steps and Refinement are proofs
--
-- How the code is represented. A method of a type that holds a mutex is one step of a state; the
-- waiting loop of ClaimFor is a claim that answers "ask again", and a run is a sequence of
-- events of any workers in any order. A Go string is its bytes, a map an association list, a
-- duration its nanoseconds. The controller of a .ctl case is a step of a world that holds its
-- clients, what it has printed, and the turns to come: one for each round of serviceUntil, with
-- what the server answers, whether the limit has run out, and what the clients say. csql is a
-- function from the script of a batch to what it prints. What is computed in floating point,
-- what the machine reports to Headroom and at a reclaim, the home directory and the order in
-- which a map gives its keys are parameters. A retry count, a client number and a duration are
-- never negative. ToLower, TrimSpace and the scanner's text are taken byte by byte, which is
-- what they do on ASCII.
--
-- Bounds and fuel. A line of the .ctl reader has at most raw_buf_room = 1023 bytes, as fgets has
-- there. The reader's loops take fuel, fuel_for two more than the bytes that are left, of which
-- each line takes one at least, and Statements one more than the bytes of its input, of which
-- each statement takes one at least. A step of the controller answers none where the turns run
-- out, and three late turns for each statement and one for each client are enough. The loops of
-- convert.go take fuel above the length of their text, of which each turn takes a byte at least.
-- A configuration's line is below max_token = 4 MiB, or the scan fails. Atoi fails beyond
-- max_int. The factor by which a Java table grows is exact below 2 ^ 24 buckets.
--
-- Not modelled: files, processes, ssh and the server (cmd/testkit, internal/exec, sandbox,
-- contain, coredump, haapply, feedback); the runners of the suites but for the parts named; the
-- perf suite but for its schedule, and the status pages; in the parts above, ClaimFor's sleep,
-- the text of a plan's lines and its file, Config.Load, the Int of both configurations, the
-- controller's probe and the start of its processes, runRaw of a batch, the sentences that Slots
-- gives with a count and the files of its records, the mounts of a corpus and its deletion
-- through a slot, and the opening of the ledger.
mod Prelude
pub mod Conf
pub mod Ctl
pub mod Dispatch
pub mod Harepl
pub mod Isolation
pub mod Perf
pub mod Plan
pub mod Result
pub mod Shell
pub mod Sizing
