-- ===== src/Text.antt =====
-- `str()` of an integer and Python's text concatenation, which the f-strings of
-- python/diskcache_rs/cache.py use to name the entries of a queue.
mod Digit
mod Numeral
pub mod Order
pub use Digit.{differ}
unfoldable pub use Digit.{str, ◌<>◌}
pub use Numeral.{str_inj, str-ne-underscore, append-ne-empty, str-ne-zero}
