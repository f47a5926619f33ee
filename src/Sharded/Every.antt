-- ===== src/Sharded/Every.antt =====
-- A method of every object of a list that goes through on each.
use mathlib.Core.Option.{some_inj}
use mathlib.Core.Path.{subst}
use diskcache_rs.Base.{ℕ, zero, suc, ◌≡◌, refl, ap, some, List, [], ◌∷◌, length, arith}
use diskcache_rs.Exec.{Exec, ok}
use diskcache_rs.Sharded.{each}
use diskcache_rs.Sharded.Places.{cache_at}

pub found :
    {S : Type 0} {Q : S → Type 0} (c : S) (cs : List S)
    → Q c
    → ((i : ℕ) (d : S) → cache_at i cs ≡ some d → Q d)
    → (i : ℕ) (d : S) → cache_at i (c ∷ cs) ≡ some d
    → Q d
unfolding cache_at
found {S} {Q} c cs q all zero d there = subst Q (some_inj.0 there) q
found c cs q all (suc i) d there = all i d there

module _ {S A B : Type 0} (f : Exec S A) (join : A → B → B) (b : B) (P Q : S → Type 0)
    (goes : (c : S) → P c → (a : A) × (c' : S) × (f c ≡ (ok a, c')) × Q c') where
  pub each_goes :
      (cs : List S)
      → ((i : ℕ) (c : S) → cache_at i cs ≡ some c → P c)
      → (r : B) × (cs' : List S) × (each f join b cs ≡ (ok r, cs'))
        × (length cs' ≡ length cs)
        × ((i : ℕ) (c : S) → cache_at i cs' ≡ some c → Q c)
  unfolding each cache_at
  each_goes [] all = (b, [], refl, refl, λ i c e. absurd (ground arith))
  each_goes (c ∷ cs) all =
      let (a, c', e, q) = goes c (all zero c refl) in
      let (r, cs', e', len, all') = each_goes cs (λ i d there. all (suc i) d there) in
      (join a r, c' ∷ cs', rw (e, e'), ap suc len, found c' cs' q all')
