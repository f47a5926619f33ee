-- ===== src/Host.antt =====
-- What the library calls and does not implement: the compiled `_diskcache_rs.PyCache` object and
-- the parts of the standard library that serialise a value, read the clock and convert a number.
mod Defs
pub mod Sound
pub use Defs.*
