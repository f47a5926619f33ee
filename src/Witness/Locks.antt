-- ===== src/Witness/Locks.antt =====
-- The theorems on locks and semaphores, applied to short runs on an empty cache.
use diskcache_rs.Base.{◌≡◌, ◌≢◌, Bool, refl, ◌||◌, true, false, none, [], ◌∷◌, arith}
use diskcache_rs.Base.Int.{pos, eqb_ℤ, ◌≤ℤ◌}
use diskcache_rs.Cache.State.{Cache}
use diskcache_rs.Cache.Laws.{ready}
use diskcache_rs.Cache.View.{has, row, view, decoded}
use diskcache_rs.Dict
use diskcache_rs.Exec.{Result, ok}
use diskcache_rs.Recipes.Mutex
use diskcache_rs.Recipes.Mutex.{look-has, finish_found, finish_missing}
use diskcache_rs.Recipes.Mutex.Safety
use diskcache_rs.Recipes.Semaphore
use diskcache_rs.Recipes.Semaphore.{as_int, IsLeft, try_acquire_lem}
use diskcache_rs.Recipes.Semaphore.Safety as Permits
use diskcache_rs.Recipes.Semaphore.Safety.{Reach-bounded}
use diskcache_rs.Recipes.Reentrant
use diskcache_rs.Recipes.Reentrant.{IsHeld, owner_and_count, try_acquire_open, is_name}
use diskcache_rs.Recipes.Reentrant.Safety as Owners
use diskcache_rs.Recipes.Reentrant.Safety.{Reach-IsOwned, IsOwned}
use diskcache_rs.Value.{null}
use diskcache_rs.Witness.Reference.{reference, reference-IsSound}
use diskcache_rs.Witness.Samples.{empty}

abbrev lock : Mutex.Params
lock = record { key = "lock"; expire = none; tag = none }

empty_takes : ready reference-IsSound empty "lock" ≡ true
unfolding ready reference-IsSound
empty_takes = refl

empty_free : has reference-IsSound empty "lock" ≡ false
unfolding row reference-IsSound Dict.get
empty_free = refl

empty-view : view reference-IsSound empty "lock" ≡ none
unfolding view row decoded reference-IsSound Dict.get
empty-view = refl

refused : ◌≢◌ {A = Result Bool} (ok false) (ok true)
refused e = ground (arith, e)

-- User 3 looks for the key, and writes it; user 4 looks then, and turns back.
abbrev locked_once : (c' : Cache reference) × Safety.Reach reference-IsSound lock c' [] (3 ∷ [])
locked_once =
    let (c', e, there, open_) = finish_missing reference-IsSound lock empty empty_takes in
    let alone =
      Safety.later
        (Safety.later (Safety.start empty empty_takes empty_free)
          (Safety.look_in 3 false (rw (look-has reference-IsSound lock empty, empty_free))))
        (Safety.take_it [] [] 3 false e) in
    let seen =
      Safety.later alone (Safety.look_in 4 true (rw (look-has reference-IsSound lock c', there))) in
    (
      c',
      Safety.later seen
          (Safety.turn_back [] [] 4 true (finish_found reference-IsSound lock c') refused),
    )

abbrev two_permits : Semaphore.Params
two_permits = record { key = "lock"; value = pos 2; expire = none; tag = none }

empty-IsLeft : IsLeft reference-IsSound two_permits empty (pos 2)
unfolding as_int
empty-IsLeft = record { takes = empty_takes; count = rw empty-view }

Reach-bounded_example : pos 1 ≤ℤ pos 2
Reach-bounded_example = Reach-bounded reference-IsSound two_permits (omega arith) (
    Permits.later (Permits.start empty empty_takes empty-view) (
      Permits.take_one
        ((try_acquire_lem reference-IsSound two_permits empty (pos 2) empty-IsLeft).0 refl).1))

empty-IsHeld : IsHeld reference-IsSound lock empty null 0
unfolding owner_and_count
empty-IsHeld = record { takes = empty_takes; entry = rw empty-view }

anyone : is_name "1-1" null || eqb_ℤ (pos 0) (pos 0) ≡ true
unfolding is_name
anyone = refl

abbrev once :
    (c' : Cache reference) × (Reentrant.try_acquire reference lock "1-1" empty ≡ (ok true, c'))
once =
    let (c', e, s) =
      try_acquire_open reference-IsSound lock empty null 0 "1-1" empty-IsHeld anyone in
    (c', e)

Reach-IsOwned_example : IsOwned reference-IsSound lock once.0 ("1-1" ∷ [])
Reach-IsOwned_example =
    Reach-IsOwned reference-IsSound lock
      (Owners.later (Owners.start empty empty_takes empty-view) (Owners.take_it "1-1" once.1))
