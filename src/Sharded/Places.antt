-- ===== src/Sharded/Places.antt =====
-- Reading and replacing one object of a list.
use diskcache_rs.Base.{
  List, ℕ, zero, suc, ◌<◌, String, ◌≡◌, refl, ap, Option, none, some, [], ◌∷◌, length, ◌==◌, arith,
  if◌then◌else◌,
}
use diskcache_rs.Exec.{Exec}
use diskcache_rs.Sharded.{on, shard_of}

module _ {S : Type 0} where
  unfoldable pub cache_at : ℕ → List S → Option (S)
  cache_at i [] = none
  cache_at zero (c ∷ cs) = some c
  cache_at (suc i) (c ∷ cs) = cache_at i cs

  unfoldable pub replace : ℕ → S → List S → List S
  replace i c [] = []
  replace zero c (d ∷ cs) = c ∷ cs
  replace (suc i) c (d ∷ cs) = d ∷ replace i c cs

  pub length-replace : (i : ℕ) (c : S) (cs : List S) → length (replace i c cs) ≡ length cs
  unfolding replace
  length-replace i c [] = refl
  length-replace zero c (d ∷ cs) = refl
  length-replace (suc i) c (d ∷ cs) = ap suc (length-replace i c cs)

  pub cache_at-replace :
      (i j : ℕ) (c d : S) (cs : List S)
      → cache_at i cs ≡ some d
      → cache_at j (replace i c cs) ≡ (if i == j then some c else cache_at j cs)
  unfolding cache_at replace
  cache_at-replace i j c d [] e = ground arith
  cache_at-replace zero zero c d (x ∷ cs) e = refl
  cache_at-replace zero (suc j) c d (x ∷ cs) e = ground arith
  cache_at-replace (suc i) zero c d (x ∷ cs) e = ground arith
  cache_at-replace (suc i) (suc j) c d (x ∷ cs) e = ground (arith, cache_at-replace i j c d cs e)

  pub replace_same : (i : ℕ) (c : S) (cs : List S) → cache_at i cs ≡ some c → replace i c cs ≡ cs
  unfolding cache_at replace
  replace_same i c [] e = refl
  replace_same zero c (x ∷ cs) e = ground arith
  replace_same (suc i) c (x ∷ cs) e = ap (λ l. x ∷ l) (replace_same i c cs e)

  pub cache_at-lt : (i : ℕ) (cs : List S) → i < length cs → (c : S) × (cache_at i cs ≡ some c)
  unfolding cache_at
  cache_at-lt i [] lt = absurd (omega arith)
  cache_at-lt zero (c ∷ cs) lt = (c, refl)
  cache_at-lt (suc i) (c ∷ cs) lt = cache_at-lt i cs (omega arith)

  pub on_lem :
      {A : Type 0} (i : ℕ) (f : Exec (S) A) (c : S) (cs : List S)
      → cache_at i cs ≡ some c
      → on i f cs ≡ ((f c).0, replace i (f c).1 cs)
  unfolding on cache_at replace
  on_lem i f c [] e = absurd (ground arith)
  on_lem zero f c (d ∷ cs) e = ground arith
  on_lem (suc i) f c (d ∷ cs) e = rw (on_lem i f c cs e)

  -- the object that a key is routed to
  unfoldable pub home : (String → ℕ) → String → List S → Option (S)
  home hash k cs = cache_at (shard_of hash k (length cs)) cs
