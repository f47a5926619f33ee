-- ===== src/Sharded.antt =====
-- A list of objects, one of which a key is routed to: what `FanoutCache` and `FastFanoutCache` share.
pub mod Places
pub mod Routes
pub mod Every
use diskcache_rs.Base.{ℕ, zero, suc, ◌%◌, String, List, [], ◌∷◌, length, ◌==◌, if◌then◌else◌}
use diskcache_rs.Exec.{Exec, Result, ok, raised, and_then, index_error, zero_division_error}

module _ {S A : Type 0} where
  -- a method of the object at an index
  unfoldable pub on : ℕ → Exec (S) A → Exec (List S) A
  on i f [] = (raised index_error, [])
  on zero f (c ∷ cs) = let (r, c') = f c in (r, c' ∷ cs)
  on (suc i) f (c ∷ cs) = let (r, cs') = on i f cs in (r, c ∷ cs')

  -- the first of the objects, and then the others unless it raises
  abbrev pub then_rest :
      {B : Type 0} → Result A × S → List S → (A → Result B × List S) → Result B × List S
  then_rest (raised e, c) cs next = (raised e, c ∷ cs)
  then_rest (ok a, c) cs next = let (r, cs') = next a in (r, c ∷ cs')

  -- the results of a method of each object in turn, combined
  unfoldable pub each : {B : Type 0} → Exec (S) A → (A → B → B) → B → Exec (List S) B
  each f join b [] = (ok b, [])
  each f join b (c ∷ cs) =
      let rest = each f join b cs in
      then_rest (f c) cs (λ a. (let (r, cs') = rest in (and_then r (λ x. ok (join a x)), cs')))

module _ (hash : String → ℕ) where
  -- the index that `_get_shard` takes among `n` objects
  unfoldable pub shard_of : String → ℕ → ℕ
  shard_of key n = hash key % n

  -- a method of `self._get_shard(key)`
  unfoldable pub route : {S A : Type 0} → String → Exec S A → Exec (List S) A
  unfolding on shard_of
  route key f cs =
      if length cs == 0
      then (raised zero_division_error, cs)
      else on (shard_of key (length cs)) f cs
