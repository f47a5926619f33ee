-- ===== src/Contract/Routed.antt =====
-- A list of objects, with each call routed to the object of its key, as one map.
use mathlib.Core.Option.{some_inj}
use mathlib.Core.Path.{subst}
use diskcache_rs.Base.{
  ℕ, zero, suc, [], ◌∷◌, refl, String, ◌≡◌, Bool, Option, some, List, length, ◌==◌, Bool-cases, inl,
  inr, arith, sym, ◌∙◌,
}
use diskcache_rs.Contract.{Acts}
use diskcache_rs.Contract.Calls.{Answer, as_answer}
use diskcache_rs.Exec.{Exec, Result, Result-cases}
use diskcache_rs.Sharded.{route, on, shard_of}
use diskcache_rs.Sharded.Places.{home}
use diskcache_rs.Sharded.Routes.{route_lem, home-replace, home_same}

module _ {C A V S : Type 0} (key : C → String) (answer : C → Option V → Result A × Option V)
    (hash : String → ℕ) where
  -- the object of the key has the entry
  abbrev pub AtHome : (S → String → Option V → Type 0) → List S → String → Option V → Type 0
  AtHome At cs k o = (s : S) × (home hash k cs ≡ some s) × At s k o

  -- Routed calls change the entry of their key alone, if those of each object do.
  pub routed :
      {good : C → Bool} {step : C → S → Result A × S} {At : S → String → Option V → Type 0}
      → Acts key answer good step At
      → Acts key answer good (λ c. route hash (key c) (step c)) (AtHome At)
  routed {At = At} class = record {
    acts = λ c cs o fine (s, here, at).
        (let (s', e, at', others) = class.acts c s o fine at in
          let changed = λ (j : String). home-replace hash cs (key c) j s s' here in
          (
            _,
            route_lem hash (key c) _ cs s s' _ here e,
            (s', rw (changed (key c)) (ground arith), at'),
            λ j p apart (d, there, q).
                (elim (Bool-cases
                  (shard_of hash (key c) (length cs) == shard_of hash j (length cs))) [
                    | inl same ↦
                        let e' : d ≡ s =
                          some_inj.0 (sym there ∙ home_same hash cs (key c) j s here same) in
                        (s', rw (changed j, same), others j p apart (subst (λ d. At d j p) e' q))
                    | inr other ↦ (d, rw (changed j, other) there, q)
                  ]),
          ));
  }

module _ {S A : Type 0} (f : A → Answer) (m : Exec S A) where
  on_answer : (i : ℕ) (cs : List S) → on i (as_answer f m) cs ≡ as_answer f (on i m) cs
  unfolding on
  on_answer i [] = refl
  on_answer zero (c ∷ cs) = elim (Result-cases (m c).0) [
    | inl (a, e) ↦ rw (e)
    | inr (e, fails) ↦ rw (fails)
  ]
  on_answer (suc i) (c ∷ cs) = elim (Result-cases (on i m cs).0) [
    | inl (a, e) ↦ rw (on_answer i cs) (ground (arith, e))
    | inr (e, fails) ↦ rw (on_answer i cs) (ground (arith, fails))
  ]

  -- a routed call answers with what the object answers
  pub route_answer :
      (hash : String → ℕ) (k : String) (cs : List S)
      → route hash k (as_answer f m) cs ≡ as_answer f (route hash k m) cs
  unfolding route
  route_answer hash k cs = elim (Bool-cases (length cs == 0)) [
    | inl empty ↦ rw (empty)
    | inr full ↦ rw (full, on_answer)
  ]
