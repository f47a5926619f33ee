-- ===== src/Contract.antt =====
-- The calls of a class that is used as a map, one after another, and a map from keys to values
-- that answers the same calls.
pub mod Routed
pub mod Calls
pub mod Store
pub mod Fanned
pub mod Quick
use diskcache_rs.Base.{
  String, ◌≡◌, refl, arith, Bool, true, false, Option, List, [], ◌∷◌, ◌&&◌, str_eq, eq_iff,
  if◌then◌else◌, Bool-cases, inl, inr,
}

-- the answers to a list of calls, each made in the state that the one before left
unfoldable pub run : {S C A : Type 0} → (C → S → A × S) → List C → S → List A × S
run step [] s = ([], s)
run step (c ∷ cs) s = let (a, s') = step c s in let (rest, s'') = run step cs s' in (a ∷ rest, s'')

abbrev pub every : {A : Type 0} → (A → Bool) → List A → Bool
every p [] = true
every p (a ∷ rest) = p a && every p rest

-- `key` is the key of a call; `answer` its answer from the entry there and the entry afterwards.
module _ {C A V : Type 0} (key : C → String) (answer : C → Option V → A × Option V) where
  -- a call on a map
  unfoldable pub perform : C → (String → Option V) → A × (String → Option V)
  perform c m = let (a, o) = answer c (m (key c)) in (a, λ j. if str_eq (key c) j then o else m j)

  -- A class whose calls answer from the entry of their key and change it alone. `At s k o` says
  -- that `o` is the entry of `k` in the state `s`, and `good` which calls are meant.
  pub record Acts {S : Type 0} (good : C → Bool) (step : C → S → A × S)
      (At : S → String → Option V → Type 0) : Type 0 where
    pub acts :
        (c : C) (s : S) (o : Option V)
        → good c ≡ true
        → At s (key c) o
        → (s' : S) × (step c s ≡ ((answer c o).0, s'))
          × At s' (key c) (answer c o).1
          × ((j : String) (p : Option V) → str_eq (key c) j ≡ false → At s j p → At s' j p)

  module _ {S : Type 0} {good : C → Bool} {step : C → S → A × S}
      {At : S → String → Option V → Type 0} (class : Acts good step At) where
    -- the state after a call stands for the map after it
    perform-At :
        (c : C) (m : String → Option V) (s s' : S)
        → At s' (key c) (answer c (m (key c))).1
        → ((j : String) (p : Option V) → str_eq (key c) j ≡ false → At s j p → At s' j p)
        → ((j : String) → At s j (m j))
        → (j : String) → At s' j ((perform c m).1 j)
    unfolding perform
    perform-At c m s s' here others all j = elim (Bool-cases (str_eq (key c) j)) [
      | inl same ↦ let e : key c ≡ j = (eq_iff (key c) j).0 same in rw (same, ← e) here
      | inr other ↦ rw (other) (others j (m j) other (all j))
    ]

    -- A list of calls is answered as the map answers it, and stands for the same map afterwards.
    pub run_lem :
        (cs : List C) (m : String → Option V) (s : S)
        → every good cs ≡ true
        → ((j : String) → At s j (m j))
        → (s' : S) × (run step cs s ≡ ((run perform cs m).0, s'))
          × ((j : String) → At s' j ((run perform cs m).1 j))
    unfolding run perform
    run_lem [] m s fine all = (s, refl, all)
    run_lem (c ∷ cs) m s fine all = elim (Bool-cases (good c)) [
      | inr bad ↦ absurd (ground arith)
      | inl well ↦
          let (s₁, e₁, here, others) = class.acts c s (m (key c)) well (all (key c)) in
          let all₁ = perform-At c m s s₁ here others all in
          let (s₂, e₂, all₂) = run_lem cs (perform c m).1 s₁ (ground arith) all₁ in
          (s₂, rw (e₁, e₂, perform), all₂)
    ]

-- some of the calls of a class, by other names
pub renamed_calls :
    {B C A V S : Type 0} {key : C → String} {answer : C → Option V → A × Option V} {good : C → Bool}
    {step : C → S → A × S} {At : S → String → Option V → Type 0} {fine : B → Bool} (f : B → C)
    → ((b : B) → fine b ≡ true → good (f b) ≡ true)
    → Acts key answer good step At
    → Acts (λ b. key (f b)) (λ b. answer (f b)) fine (λ b. step (f b)) At
renamed_calls f fits class = record { acts = λ b s o fine. class.acts (f b) s o (fits b fine) }
