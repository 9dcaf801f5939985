-- ===== src/Conf.antt =====
-- internal/conf: the configuration files, which are java.util.Properties.
pub mod Text
pub mod Config
pub mod Parse
pub mod Escapes
pub mod Consistency
pub mod Reads
pub mod Entries
pub mod Prefixes
pub mod Ini
pub mod Sections
mod Tests
mod IniTests
