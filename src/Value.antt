-- ===== src/Value.antt =====
-- The Python objects that a cache stores or returns, as far as the code tells them apart.
use diskcache_rs.Base.{ℕ, String, Bool, true, false, ◌&&◌, List}
use diskcache_rs.Base.Int.{ℤ}

abbrev pub Bytes : Type 0
Bytes = List ℕ

-- `null` is None, `pair` a tuple of two, `file` a file-like object with its content, and `other`
-- any other object, known by a number.
pub data Value : Type 0 where
  null : Value
  int : ℤ → Value
  bytes : Bytes → Value
  text : String → Value
  pair : Value → Value → Value
  file : Bytes → Value
  other : ℕ → Value

-- None, integers, bytes, texts and pairs of such, which pickle always handles.
unfoldable pub is_plain : Value → Bool
is_plain (pair a b) = is_plain a && is_plain b
is_plain (file b) = false
is_plain (other n) = false
is_plain _ = true

-- `value is None`
abbrev pub is_null : Value → Bool
is_null null = true
is_null _ = false
