-- ===== src/Recipes/Stampede/Turns.antt =====
-- Calls of a function under `memoize_stampede`, the threads that they start, and the end of a mark,
-- in any order, as a step relation.
use diskcache_rs.Base.{ℕ, ◌+◌, ◌≡◌, true, false, List, arith, inl, inr, str_eq, if◌then◌else◌}
use diskcache_rs.Cache.State.{Cache}
use diskcache_rs.Exec.{Exec}
use diskcache_rs.Host.{Host}
use diskcache_rs.Host.Sound.{IsSound}
use diskcache_rs.Recipes.Stampede.{Options, cache_key, thread_key, recompute, wrapper}
use diskcache_rs.Value.{Value}
use diskcache_rs.Recipes.Stampede.Marks.{Leaves, started, marked, wrapper-Marks, marked-recompute}

module _ {h : Host} (sound : IsSound h) (o : Options) (raw_key : List Value) where
  -- A call, the end of a thread's work, and a mark that goes, by its expiration or otherwise. The
  -- numbers are those of the threads that have been started and of the marks that have gone.
  pub data Turn : Cache h → ℕ → ℕ → Cache h → ℕ → ℕ → Type 0 where
    calls :
        {c : Cache h} {n m : ℕ} (func : Exec (Cache h) Value)
        → Leaves sound o raw_key func
        → Turn c n m
            (wrapper h o raw_key func c).1
            (if started (wrapper h o raw_key func c).0 then n + 1 else n)
            m
    works :
        {c : Cache h} {n m : ℕ} (func : Exec (Cache h) Value)
        → Leaves sound o raw_key func
        → Turn c n m (recompute h o raw_key func c).1 n m
    lapses :
        {c c' : Cache h} {n m : ℕ}
        → marked sound o raw_key c ≡ true
        → marked sound o raw_key c' ≡ false
        → Turn c n m c' n (m + 1)
    elsewhere :
        {c c' : Cache h} {n m : ℕ}
        → marked sound o raw_key c' ≡ marked sound o raw_key c
        → Turn c n m c' n m

  pub data Reach : Cache h → ℕ → ℕ → Type 0 where
    start : (c : Cache h) → marked sound o raw_key c ≡ false → Reach c 0 0
    later : {c c' : Cache h} {n m n' m' : ℕ} → Reach c n m → Turn c n m c' n' m' → Reach c' n' m'

  abbrev pub Counts : Cache h → ℕ → ℕ → Type 0
  Counts c n m = n ≡ (if marked sound o raw_key c then m + 1 else m)

  module _ (apart : str_eq (cache_key o raw_key) (thread_key o raw_key) ≡ false) where
    Turn-Counts :
        {c c' : Cache h} {n m n' m' : ℕ} → Turn c n m c' n' m' → Counts c n m → Counts c' n' m'
    Turn-Counts {c} {n = n} {m = m} (calls func leaves) k =
        elim (wrapper-Marks sound o raw_key apart func c leaves) [
          | inl (none_, same) ↦ rw (none_, same) k
          | inr (one, free, set_) ↦ rw (one, set_) (ground (arith, free, k))
        ]
    Turn-Counts {c} (works func leaves) k =
        rw (marked-recompute sound o raw_key apart func c leaves) k
    Turn-Counts (lapses there gone) k = rw (gone) (ground (arith, there, k))
    Turn-Counts (elsewhere same) k = rw (same) k

    -- If the key of the mark is not that of the result, then however calls of a function under
    -- memoize_stampede, the work of the threads they start, marks that go, and other uses of the
    -- cache that leave the mark alone follow each other from a cache without the mark, where the
    -- function leaves the mark alone, the number of threads started is that of the marks that
    -- have gone, and one more just while there is a mark.
    pub Reach-Counts : {c : Cache h} {n m : ℕ} → Reach c n m → Counts c n m
    Reach-Counts (start c free) = rw (free)
    Reach-Counts (later r turn) = Turn-Counts turn (Reach-Counts r)
