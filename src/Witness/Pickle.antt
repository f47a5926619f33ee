-- ===== src/Witness/Pickle.antt =====
-- A pickle format: numbers that tell the kind of a value, then its parts.
use Prim.Native.Nat.{Ordering, compare as compare_ℕ}
use Prim.Native.Char.{char, code, IsLt, IsScalar}
use Prim.Native.String.{[] as no_chars, ◌∷◌ as add_char}
use mathlib.Core.Path.{subst}
use diskcache_rs.Base.{
  ℕ, zero, suc, ◌+◌, ◌≤◌, String, ◌≡◌, refl, ap, Bool, true, false, ◌&&◌, Option, none, some, List,
  [], ◌∷◌, ◌++◌, arith, length,
}
use mathlib.Core.Bool.{false≢true}
use diskcache_rs.Base.Int.{pos, negsuc}
use diskcache_rs.Value.{Value, null, int, bytes, text, pair, file, other, is_plain}

abbrev Both : Ordering → Ordering → Type 0
Both Ordering.lt o = IsLt o
Both Ordering.eq _ = ⊥
Both Ordering.gt _ = ⊥

abbrev Scalar : Ordering → Ordering → Ordering → Type 0
Scalar Ordering.lt _ _ = Unit
Scalar Ordering.eq o p = Both o p
Scalar Ordering.gt o p = Both o p

abbrev is_lt? : (o : Ordering) → Option (IsLt o)
is_lt? Ordering.lt = some tt
is_lt? Ordering.eq = none
is_lt? Ordering.gt = none

abbrev both? : (o p : Ordering) → Option (Both o p)
both? Ordering.lt o = is_lt? o
both? Ordering.eq _ = none
both? Ordering.gt _ = none

abbrev scalar? : (o p q : Ordering) → Option (Scalar o p q)
scalar? Ordering.lt _ _ = some tt
scalar? Ordering.eq o p = both? o p
scalar? Ordering.gt o p = both? o p

is_lt?-some : (o : Ordering) (x : IsLt o) → is_lt? o ≡ some x
is_lt?-some Ordering.lt x = refl
is_lt?-some Ordering.eq x = absurd x
is_lt?-some Ordering.gt x = absurd x

both?-some : (o p : Ordering) (x : Both o p) → both? o p ≡ some x
both?-some Ordering.lt p x = is_lt?-some p x
both?-some Ordering.eq p x = absurd x
both?-some Ordering.gt p x = absurd x

scalar?-some : (o p q : Ordering) (x : Scalar o p q) → scalar? o p q ≡ some x
scalar?-some Ordering.lt p q x = refl
scalar?-some Ordering.eq p q x = both?-some p q x
scalar?-some Ordering.gt p q x = both?-some p q x

abbrev pub add_scalar : (n : ℕ) → Option (IsScalar n) → Option String → Option String
add_scalar n (some p) (some s) = some (add_char (char n p) s)
add_scalar n _ _ = none

abbrev pub codes : String → List ℕ
codes no_chars = []
codes (add_char c s) = code c ∷ codes s

unfoldable pub from_codes : List ℕ → Option String
from_codes [] = some no_chars
from_codes (n ∷ ns) =
    add_scalar n (scalar? (compare_ℕ n 55296) (compare_ℕ 57343 n) (compare_ℕ n 1114112))
      (from_codes ns)

pub from_codes-codes : (s : String) → from_codes (codes s) ≡ some s
unfolding from_codes
from_codes-codes no_chars = refl
from_codes-codes (add_char (char n p) s) = rw (from_codes-codes s) (
    ap (λ o. add_scalar n o (some s))
      (scalar?-some (compare_ℕ n 55296) (compare_ℕ 57343 n) (compare_ℕ n 1114112) p))

-- The first `n` entries, and the others.
abbrev split : ℕ → List ℕ → List ℕ × List ℕ
split zero d = ([], d)
split (suc n) [] = ([], [])
split (suc n) (b ∷ d) = let (front, back) = split n d in (b ∷ front, back)

split-append : (b d : List ℕ) → split (length b) (b ++ d) ≡ (b, d)
split-append [] d = refl
split-append (x ∷ b) d = rw (split-append b d) refl

unfoldable pub encode : Value → List ℕ
encode null = 0 ∷ []
encode (int (pos n)) = 1 ∷ n ∷ []
encode (int (negsuc n)) = 2 ∷ n ∷ []
encode (bytes b) = 3 ∷ length b ∷ b
encode (text s) = 4 ∷ length (codes s) ∷ codes s
encode (pair a b) = 5 ∷ encode a ++ encode b
encode _ = []

-- The nesting of pairs.
unfoldable pub height : Value → ℕ
height (pair a b) = suc (height a + height b)
height _ = 0

abbrev as_bytes : List ℕ × List ℕ → Option (Value × List ℕ)
as_bytes (front, back) = some (bytes front, back)

abbrev text_or_none : Option String → List ℕ → Option (Value × List ℕ)
text_or_none none back = none
text_or_none (some s) back = some (text s, back)

abbrev as_text : List ℕ × List ℕ → Option (Value × List ℕ)
as_text (front, back) = text_or_none (from_codes front) back

abbrev after_first : Value → Option (Value × List ℕ) → Option (Value × List ℕ)
after_first a none = none
after_first a (some (b, d)) = some (pair a b, d)

abbrev after :
    Option (Value × List ℕ) → (List ℕ → Option (Value × List ℕ)) → Option (Value × List ℕ)
after none f = none
after (some (a, d)) f = after_first a (f d)

-- The value that stands first, and what follows it, on fuel that bounds the nesting.
unfoldable pub decode : ℕ → List ℕ → Option (Value × List ℕ)
decode (suc f) (zero ∷ d) = some (null, d)
decode (suc f) ((suc zero) ∷ n ∷ d) = some (int (pos n), d)
decode (suc f) ((suc (suc zero)) ∷ n ∷ d) = some (int (negsuc n), d)
decode (suc f) ((suc (suc (suc zero))) ∷ n ∷ d) = as_bytes (split n d)
decode (suc f) ((suc (suc (suc (suc zero)))) ∷ n ∷ d) = as_text (split n d)
decode (suc f) ((suc (suc (suc (suc (suc zero))))) ∷ d) = after (decode f d) (decode f)
decode _ _ = none

append_assoc : (a b d : List ℕ) → (a ++ b) ++ d ≡ a ++ (b ++ d)
append_assoc [] b d = refl
append_assoc (x ∷ a) b d = ap (λ l. x ∷ l) (append_assoc a b d)

both_true : (a b : Bool) → a && b ≡ true → (a ≡ true) × (b ≡ true)
both_true true b e = (refl, e)
both_true false b e = absurd (false≢true e)

decode-encode :
    (v : Value) (f : ℕ) (d : List ℕ)
    → is_plain v ≡ true
    → height v ≤ f
    → decode (suc f) (encode v ++ d) ≡ some (v, d)
unfolding decode encode height is_plain
decode-encode null f d p h = refl
decode-encode (int (pos n)) f d p h = refl
decode-encode (int (negsuc n)) f d p h = refl
decode-encode (bytes b) f d p h = ap as_bytes (split-append b d)
decode-encode (text s) f d p h =
    rw (split-append (codes s) d) (ap (λ o. text_or_none o d) (from_codes-codes s))
decode-encode (pair a b) (suc f) d p h =
    rw
      (
        append_assoc (encode a) (encode b) d,
        decode-encode a f (encode b ++ d) ((both_true (is_plain a) (is_plain b) p).0) (omega arith),
        decode-encode b f d ((both_true (is_plain a) (is_plain b) p).1) (omega arith),
      )
      refl
decode-encode (pair a b) zero d p h = absurd (omega arith)
decode-encode (file b) f d p h = absurd (false≢true p)
decode-encode (other n) f d p h = absurd (false≢true p)

append_nil : (a : List ℕ) → a ++ [] ≡ a
append_nil [] = refl
append_nil (x ∷ a) = ap (λ l. x ∷ l) (append_nil a)

pub decode-pickle :
    (v : Value) → is_plain v ≡ true → decode (suc (height v)) (encode v) ≡ some (v, [])
decode-pickle v p =
    subst (λ l. decode (suc (height v)) l ≡ some (v, [])) (append_nil (encode v))
      (decode-encode v (height v) [] p (omega arith))
