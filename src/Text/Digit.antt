-- ===== src/Text/Digit.antt =====
-- Decimal numerals, and the concatenation of texts.
use Prim.Native.String.{◌++◌ as append, count}
use diskcache_rs.Base.{
  ℕ, zero, suc, ◌/◌, ◌%◌, ◌<◌, String, ◌≡◌, refl, sym, ap, ◌∙◌, ◌≢◌, false, arith, ltb,
  if◌then◌else◌, str_eq, eq_iff,
}
use diskcache_rs.Base.Int.{ℤ, pos, negsuc}

infixr 66 ◌<>◌
abbrev pub ◌<>◌ : String → String → String
s <> t = append s t

-- The numeral of a number below ten.
unfoldable pub digit : ℕ → String
digit zero = "0"
digit (suc zero) = "1"
digit (suc (suc zero)) = "2"
digit (suc (suc (suc zero))) = "3"
digit (suc (suc (suc (suc zero)))) = "4"
digit (suc (suc (suc (suc (suc zero))))) = "5"
digit (suc (suc (suc (suc (suc (suc zero)))))) = "6"
digit (suc (suc (suc (suc (suc (suc (suc zero))))))) = "7"
digit (suc (suc (suc (suc (suc (suc (suc (suc zero)))))))) = "8"
digit _ = "9"

-- The decimal numeral of `n`, on fuel. Fuel above `n` is enough.
unfoldable pub digits : ℕ → ℕ → String
digits zero n = digit (n % 10)
digits (suc f) n =
    let longer = digits f (n / 10) <> digit (n % 10) in if ltb n 10 then digit n else longer

unfoldable pub str : ℤ → String
unfolding digits digit
str (pos n) = digits (suc n) n
str (negsuc n) = "-" <> digits (suc (suc n)) (suc n)

str_example : str (pos 1207) ≡ "1207"
unfolding str
str_example = refl

str_negative : str (negsuc 9) ≡ "-10"
unfolding str
str_negative = refl

pub differ : (s t : String) → str_eq s t ≡ false → s ≢ t
differ s t h e = ground (arith, eq_iff s t)

pub count-digit : (n : ℕ) → count (digit n) ≡ 1
unfolding digit
count-digit zero = refl
count-digit (suc zero) = refl
count-digit (suc (suc zero)) = refl
count-digit (suc (suc (suc zero))) = refl
count-digit (suc (suc (suc (suc zero)))) = refl
count-digit (suc (suc (suc (suc (suc zero))))) = refl
count-digit (suc (suc (suc (suc (suc (suc zero)))))) = refl
count-digit (suc (suc (suc (suc (suc (suc (suc zero))))))) = refl
count-digit (suc (suc (suc (suc (suc (suc (suc (suc zero)))))))) = refl
count-digit _ = refl

-- The number that a digit stands for.
value : String → ℕ
value s =
    if str_eq s "0"
    then 0
    else if str_eq s "1"
    then 1
    else if str_eq s "2"
    then 2
    else if str_eq s "3"
    then 3
    else if str_eq s "4"
    then 4
    else if str_eq s "5"
    then 5
    else if str_eq s "6"
    then 6
    else if str_eq s "7"
    then 7
    else if str_eq s "8"
    then 8
    else 9

value-digit : (n : ℕ) → n < 10 → value (digit n) ≡ n
unfolding value digit
value-digit zero h = refl
value-digit (suc zero) h = refl
value-digit (suc (suc zero)) h = refl
value-digit (suc (suc (suc zero))) h = refl
value-digit (suc (suc (suc (suc zero)))) h = refl
value-digit (suc (suc (suc (suc (suc zero))))) h = refl
value-digit (suc (suc (suc (suc (suc (suc zero)))))) h = refl
value-digit (suc (suc (suc (suc (suc (suc (suc zero))))))) h = refl
value-digit (suc (suc (suc (suc (suc (suc (suc (suc zero)))))))) h = refl
value-digit (suc (suc (suc (suc (suc (suc (suc (suc (suc zero))))))))) h = refl
value-digit _ h = absurd (omega arith)

pub digit_inj : (n m : ℕ) → n < 10 → m < 10 → digit n ≡ digit m → n ≡ m
digit_inj n m a b e = sym (value-digit n a) ∙ ap value e ∙ value-digit m b

-- A digit is neither an underscore nor a minus sign.
pub digit-ne-underscore : (n : ℕ) → digit n ≢ "_"
unfolding digit
digit-ne-underscore zero e = differ _ _ refl e
digit-ne-underscore (suc zero) e = differ _ _ refl e
digit-ne-underscore (suc (suc zero)) e = differ _ _ refl e
digit-ne-underscore (suc (suc (suc zero))) e = differ _ _ refl e
digit-ne-underscore (suc (suc (suc (suc zero)))) e = differ _ _ refl e
digit-ne-underscore (suc (suc (suc (suc (suc zero))))) e = differ _ _ refl e
digit-ne-underscore (suc (suc (suc (suc (suc (suc zero)))))) e = differ _ _ refl e
digit-ne-underscore (suc (suc (suc (suc (suc (suc (suc zero))))))) e = differ _ _ refl e
digit-ne-underscore (suc (suc (suc (suc (suc (suc (suc (suc zero)))))))) e = differ _ _ refl e
digit-ne-underscore _ e = differ _ _ refl e

pub digit-ne-minus : (n : ℕ) → digit n ≢ "-"
unfolding digit
digit-ne-minus zero e = differ _ _ refl e
digit-ne-minus (suc zero) e = differ _ _ refl e
digit-ne-minus (suc (suc zero)) e = differ _ _ refl e
digit-ne-minus (suc (suc (suc zero))) e = differ _ _ refl e
digit-ne-minus (suc (suc (suc (suc zero)))) e = differ _ _ refl e
digit-ne-minus (suc (suc (suc (suc (suc zero))))) e = differ _ _ refl e
digit-ne-minus (suc (suc (suc (suc (suc (suc zero)))))) e = differ _ _ refl e
digit-ne-minus (suc (suc (suc (suc (suc (suc (suc zero))))))) e = differ _ _ refl e
digit-ne-minus (suc (suc (suc (suc (suc (suc (suc (suc zero)))))))) e = differ _ _ refl e
digit-ne-minus _ e = differ _ _ refl e
