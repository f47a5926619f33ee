-- ===== src/Text/Numeral.antt =====
-- Numerals compared, and their last digits.
use Prim.Native.String.{count}
use text.Mathlib.TextLemmas.{
  append_cancel_left, append_inj, length-append, append_assoc, append-nil, nil-append,
}
use native.Mathlib.Decide.{dec_lt}
use diskcache_rs.Base.{
  ℕ, zero, suc, ◌/◌, ◌%◌, ◌≤◌, ◌<◌, String, ◌≡◌, refl, sym, ap, ◌∙◌, ◌≢◌, inl, inr, arith, ltb,
  Bool-cases,
}
use diskcache_rs.Base.Int.{ℤ, pos, negsuc}
use diskcache_rs.Text.Digit.{
  ◌<>◌, digit, digits, str, count-digit, digit_inj, digit-ne-underscore, digit-ne-minus,
}

count-digits-pos : (f n : ℕ) → 0 < count (digits f n)
unfolding digits
count-digits-pos zero n = omega (arith, count-digit (n % 10))
count-digits-pos (suc f) n = elim (Bool-cases (ltb n 10)) [
  | inl small ↦ rw small (omega (arith, count-digit n))
  | inr large ↦ rw (large, length-append) (omega (arith, count-digit (n % 10)))
]

ends_in_digit : (f n : ℕ) → (s : String) × (d : ℕ) × (digits f n ≡ s <> digit d)
unfolding digits
ends_in_digit zero n = ("", n % 10, sym (nil-append _))
ends_in_digit (suc f) n = elim (Bool-cases (ltb n 10)) [
  | inl small ↦ ("", n, rw small (sym (nil-append _)))
  | inr large ↦ (digits f (n / 10), n % 10, rw large)
]

-- What follows a numeral of two digits or more cannot be a single digit.
digit-ne-append : (f n k d : ℕ) → digit k ≢ digits f n <> digit d
digit-ne-append f n k d e = omega (
  arith,
  ap count e,
  length-append (digits f n) (digit d),
  count-digits-pos f n,
  count-digit k,
  count-digit d,
)

digits_small : (f n : ℕ) → n < 10 → digits (suc f) n ≡ digit n
unfolding digits
digits_small f n h = ground arith

digits_large : (f n : ℕ) → 10 ≤ n → digits (suc f) n ≡ digits f (n / 10) <> digit (n % 10)
unfolding digits
digits_large f n h = ground arith

last_digit : (s t : String) (k d : ℕ) → s <> digit k ≡ t <> digit d → (s ≡ t) × (digit k ≡ digit d)
last_digit s t k d e = append_inj e (
    omega (
      arith,
      ap count e,
      length-append s (digit k),
      length-append t (digit d),
      count-digit k,
      count-digit d,
    ))

digits_inj : (f g n m : ℕ) → n < f → m < g → digits f n ≡ digits g m → n ≡ m
digits_inj zero g n m a b e = absurd (omega arith)
digits_inj (suc f) zero n m a b e = absurd (omega arith)
digits_inj (suc f) (suc g) n m a b e = elim (dec_lt n 10) [
  | yes sn ↦ elim (dec_lt m 10) [
    | yes sm ↦ digit_inj n m sn sm (sym (digits_small f n sn) ∙ e ∙ digits_small g m sm)
    | no lm ↦ absurd (
        digit-ne-append g (m / 10) n (m % 10)
          (sym (digits_small f n sn) ∙ e ∙ digits_large g m (omega arith)))
  ]
  | no ln ↦ elim (dec_lt m 10) [
    | yes sm ↦ absurd (
        digit-ne-append f (n / 10) m (n % 10)
          (sym (digits_small g m sm) ∙ sym e ∙ digits_large f n (omega arith)))
    | no lm ↦
        let (tens, ones) =
          last_digit (digits f (n / 10)) (digits g (m / 10)) (n % 10) (m % 10)
            (sym (digits_large f n (omega arith)) ∙ e ∙ digits_large g m (omega arith)) in
        omega (
          arith,
          digits_inj f g (n / 10) (m / 10) (omega arith) (omega arith) tens,
          digit_inj (n % 10) (m % 10) (omega arith) (omega arith) ones,
        )
  ]
]

-- A numeral does not begin with a minus sign, whatever follows it.
digits-ne-minus : (f n : ℕ) (u t : String) → digits f n <> u ≢ "-" <> t
unfolding digits
digits-ne-minus zero n u t e = digit-ne-minus (n % 10) (append_inj e (count-digit (n % 10))).0
digits-ne-minus (suc f) n u t e = elim (dec_lt n 10) [
  | yes small ↦
      digit-ne-minus n
        (append_inj (ap (λ s. s <> u) (sym (digits_small f n small)) ∙ e) (count-digit n)).0
  | no large ↦ digits-ne-minus f (n / 10) (digit (n % 10) <> u) t (
      sym (append_assoc (digits f (n / 10)) (digit (n % 10)) u)
      ∙ ap (λ s. s <> u) (sym (digits_large f n (omega arith)))
      ∙ e)
]

-- Python prints two integers alike only if they are equal.
pub str_inj : (i j : ℤ) → str i ≡ str j → i ≡ j
unfolding str
str_inj (pos n) (pos m) e = ap pos (digits_inj (suc n) (suc m) n m (omega arith) (omega arith) e)
str_inj (pos n) (negsuc m) e = absurd (digits-ne-minus (suc n) n "" _ (append-nil _ ∙ e))
str_inj (negsuc n) (pos m) e = absurd (digits-ne-minus (suc m) m "" _ (append-nil _ ∙ sym e))
str_inj (negsuc n) (negsuc m) e = ap negsuc (
    omega (
      arith,
      digits_inj (suc (suc n)) (suc (suc m)) (suc n) (suc m) (omega arith) (omega arith)
          (append_cancel_left "-" _ _ e),
    ))

digits-ne-underscore : (f n : ℕ) (s t : String) → s <> digits f n ≢ t <> "_"
digits-ne-underscore f n s t e =
    let (front, d, ends) = ends_in_digit f n in
    let whole : (s <> front) <> digit d ≡ t <> "_" =
      append_assoc s front (digit d) ∙ ap (λ u. s <> u) (sym ends) ∙ e in
    digit-ne-underscore d
      (append_inj whole (
        omega (
          arith,
          ap count whole,
          length-append (s <> front) (digit d),
          length-append t "_",
          count-digit d,
        ))).1

-- A text that ends in an integer does not end in an underscore.
pub str-ne-underscore : (i : ℤ) (s t : String) → s <> str i ≢ t <> "_"
unfolding str
str-ne-underscore (pos n) s t e = digits-ne-underscore (suc n) n s t e
str-ne-underscore (negsuc n) s t e =
    digits-ne-underscore (suc (suc n)) (suc n) (s <> "-") t (append_assoc s "-" _ ∙ e)

-- A text that begins with some characters is not empty.
pub append-ne-empty : (s t : String) → 0 < count s → s <> t ≢ ""
append-ne-empty s t some_chars e = omega (arith, ap count e, length-append s t)

digit-ne-zero : (n : ℕ) → 0 < n → n < 10 → digit n ≢ "0"
unfolding digit
digit-ne-zero n pos_ small e = absurd (omega (arith, digit_inj n 0 small (omega arith) (e ∙ refl)))

-- A numeral above 0 does not begin with a zero, whatever follows it.
digits-ne-zero : (f n : ℕ) (u t : String) → 0 < n → n < f → digits f n <> u ≢ "0" <> t
digits-ne-zero zero n u t some_ enough e = absurd (omega arith)
digits-ne-zero (suc f) n u t some_ enough e = elim (dec_lt n 10) [
  | yes small ↦
      digit-ne-zero n some_ small
        (append_inj (ap (λ s. s <> u) (sym (digits_small f n small)) ∙ e) (count-digit n)).0
  | no large ↦ digits-ne-zero f (n / 10) (digit (n % 10) <> u) t (omega arith) (omega arith) (
      sym (append_assoc (digits f (n / 10)) (digit (n % 10)) u)
      ∙ ap (λ s. s <> u) (sym (digits_large f n (omega arith)))
      ∙ e)
]

pub str-ne-zero : (n : ℕ) (t : String) → 0 < n → str (pos n) ≢ "0" <> t
unfolding str
str-ne-zero n t some_ e = digits-ne-zero (suc n) n "" t some_ (omega arith) (append-nil _ ∙ e)
