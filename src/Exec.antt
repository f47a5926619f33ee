-- ===== src/Exec.antt =====
-- A Python method call: it changes an object and returns a value or raises. What was written
-- before a raise stays written, so the state comes back beside the error too.
use diskcache_rs.Base.{String, ◌≡◌, refl, ◌⊎◌, inl, inr}

-- The exceptions that the library raises or catches.
pub data Error : Type 0 where
  key_error : String → Error
  value_error index_error zero_division_error type_error assertion_error attribute_error
        runtime_error :
      Error

pub data Result (A : Type 0) : Type 0 where
  ok : A → Result A
  raised : Error → Result A

module _ {A B : Type 0} where
  -- a pure step after another
  abbrev pub and_then : Result A → (A → Result B) → Result B
  and_then (ok a) f = f a
  and_then (raised e) f = raised e

-- `try: return r` with `except Exception: pass`, and what follows
abbrev pub or_else : {A : Type 0} → Result A → Result A → Result A
or_else (ok a) next = ok a
or_else (raised e) next = next

abbrev pub Exec : Type 0 → Type 0 → Type 0
Exec S A = S → Result A × S

module _ {S A : Type 0} where
  abbrev pub pure : A → Exec S A
  pure a s = (ok a, s)

  abbrev pub raise : Error → Exec S A
  raise e s = (raised e, s)

  abbrev pub lift : Result A → Exec S A
  lift r s = (r, s)

  abbrev pub gets : (S → A) → Exec S A
  gets f s = (ok (f s), s)

  abbrev handler : Exec S A → Result A × S → Result A × S
  handler h (ok a, s) = (ok a, s)
  handler h (raised e, s) = h s

  -- `try: m` and `except Exception: h`
  abbrev pub attempt : Exec S A → Exec S A → Exec S A
  attempt m h s = handler h (m s)

abbrev pub modify : {S : Type 0} → (S → S) → Exec S (Unit {0})
modify f s = (ok tt, f s)

module _ {S A B : Type 0} where
  abbrev continue : (A → Exec S B) → Result A × S → Result B × S
  continue f (ok a, s) = f a s
  continue f (raised e, s) = (raised e, s)

  infixl 5 ◌>>=◌ ◌>>◌
  abbrev pub ◌>>=◌ : Exec S A → (A → Exec S B) → Exec S B
  ◌>>=◌ m f s = continue f (m s)

  abbrev pub ◌>>◌ : Exec S A → Exec S B → Exec S B
  m >> n = m >>= λ _. n

pub Result-cases :
    {A : Type 0} (r : Result A) → ((a : A) × (r ≡ ok a)) ⊎ ((e : Error) × (r ≡ raised e))
Result-cases (ok a) = inl (a, refl)
Result-cases (raised e) = inr (e, refl)
