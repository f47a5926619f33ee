-- ===== src/Text/Order.antt =====
-- The order of texts by the numbers of their characters, in which Python sorts them.
use Prim.Native.Nat.{Ordering, compare as compare_ℕ}
use Prim.Native.Char.{Char, code}
use Prim.Native.String.{compare}
use Prim.Native.String.compare as clauses
use native.Mathlib.Omega.{compare-lt, compare-eq, compare-gt}
use text.Mathlib.TextEquality.{codes_equal}
use diskcache_rs.Base.{
  String, Bool, true, false, not, ◌≡◌, refl, arith, ◌⊎◌, inl, inr, ltb, ◌==◌, if◌then◌else◌,
}

abbrev pub is_after : Ordering → Bool
is_after Ordering.lt = false
is_after Ordering.eq = false
is_after Ordering.gt = true

-- `s <= t`
unfoldable pub str_leb : String → String → Bool
str_leb s t = not (is_after (compare s t))

Ordering-cases : (o : Ordering) → (o ≡ Ordering.lt) ⊎ ((o ≡ Ordering.eq) ⊎ (o ≡ Ordering.gt))
Ordering-cases Ordering.lt = inl refl
Ordering-cases Ordering.eq = inr (inl refl)
Ordering-cases Ordering.gt = inr (inr refl)

-- by the first characters that differ
leb_cons :
    (c d : Char) (s t : String)
    → str_leb (String.◌∷◌ c s) (String.◌∷◌ d t)
      ≡ (if ltb (code c) (code d) then true else (if code c == code d then str_leb s t else false))
unfolding str_leb
leb_cons c d s t = elim (Ordering-cases (compare_ℕ (code c) (code d))) [
  | inl before ↦ rw (clauses.cons-cons c d s t, before) (ground (arith, compare-lt _ _ before))
  | inr (inl same) ↦ rw (clauses.cons-cons c d s t, same) (ground (arith, compare-eq _ _ same))
  | inr (inr after) ↦ rw (clauses.cons-cons c d s t, after) (ground (arith, compare-gt _ _ after))
]

first_leb : (t : String) → str_leb String.[] t ≡ true
unfolding str_leb
first_leb String.[] = refl
first_leb (String.◌∷◌ d t) = rw (clauses.nil-cons d t)

last_leb : (c : Char) (s : String) → str_leb (String.◌∷◌ c s) String.[] ≡ false
unfolding str_leb
last_leb c s = rw (clauses.cons-nil c s)

-- Of two texts one comes first.
pub str_leb_total : (s t : String) → str_leb s t ≡ false → str_leb t s ≡ true
str_leb_total String.[] t after = absurd (ground (arith, first_leb t))
str_leb_total (String.◌∷◌ c s) String.[] after = first_leb _
str_leb_total (String.◌∷◌ c s) (String.◌∷◌ d t) after =
    rw (leb_cons d c t s) (ground (arith, leb_cons c d s t, str_leb_total s t))

pub str_leb_trans : (s t u : String) → str_leb s t ≡ true → str_leb t u ≡ true → str_leb s u ≡ true
str_leb_trans String.[] t u p q = first_leb u
str_leb_trans (String.◌∷◌ c s) String.[] u p q = absurd (ground (arith, last_leb c s))
str_leb_trans (String.◌∷◌ c s) (String.◌∷◌ d t) String.[] p q =
    absurd (ground (arith, last_leb d t))
str_leb_trans (String.◌∷◌ c s) (String.◌∷◌ d t) (String.◌∷◌ e u) p q =
    rw (leb_cons c e s u) (ground (arith, leb_cons c d s t, leb_cons d e t u, str_leb_trans s t u))

code_inj : (c d : Char) → code c ≡ code d → c ≡ d
code_inj c d e = elim (Ordering-cases (compare_ℕ (code c) (code d))) [
  | inl before ↦ absurd (omega (arith, compare-lt _ _ before))
  | inr (inl same) ↦ codes_equal c d same
  | inr (inr after) ↦ absurd (omega (arith, compare-gt _ _ after))
]

pub str_leb_antisym : (s t : String) → str_leb s t ≡ true → str_leb t s ≡ true → s ≡ t
str_leb_antisym String.[] String.[] p q = refl
str_leb_antisym String.[] (String.◌∷◌ d t) p q = absurd (ground (arith, last_leb d t))
str_leb_antisym (String.◌∷◌ c s) String.[] p q = absurd (ground (arith, last_leb c s))
str_leb_antisym (String.◌∷◌ c s) (String.◌∷◌ d t) p q =
    let heads : code c ≡ code d = ground (arith, leb_cons c d s t, leb_cons d c t s) in
    let tails : s ≡ t =
      str_leb_antisym s t (ground (arith, leb_cons c d s t)) (ground (arith, leb_cons d c t s)) in
    rw (code_inj c d heads, tails)
