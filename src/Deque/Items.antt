-- ===== src/Deque/Items.antt =====
-- What `len` and the iteration of a deque read from the queue that holds it.
use diskcache_rs.Base.{ℕ, ◌≡◌, refl, none, List, [], ◌∷◌, length, if◌then◌else◌}
use diskcache_rs.Base.Int.{ℤ, pos, ◌+ℤ◌, ◌-ℤ◌, int_laws}
use diskcache_rs.Cache.Queue.{counter_key, front_key, item_key}
use diskcache_rs.Cache.Queue.Holds.{IsQueue, Holds, read_counter_lem}
use diskcache_rs.Cache.State.{Cache}
use diskcache_rs.Cache.View.{get_value-view}
use diskcache_rs.Deque.{queue_range, len, items_from, all_items}
use diskcache_rs.Exec.{ok}
use diskcache_rs.Host.{Host}
use diskcache_rs.Host.Sound.{IsSound}
use diskcache_rs.Value.{Value, null, is_null}

-- the values that are not None
unfoldable pub present : List Value → List Value
present [] = []
present (v ∷ vs) = let rest = present vs in if is_null v then rest else v ∷ rest

module _ {h : Host} (sound : IsSound h) where
  abbrev pub IsDeque : Cache h → ℤ → List Value → Type 0
  IsDeque = IsQueue sound none

  pub queue_range_lem :
      (c : Cache h) (front : ℤ) (items : List Value)
      → IsDeque c front items
      → queue_range h c ≡ (ok (front, front +ℤ pos (length items)), c)
  unfolding queue_range
  queue_range_lem c front items q = rw (
    read_counter_lem sound none c (counter_key none) (front +ℤ pos (length items)) q.back_counter,
    read_counter_lem sound none c (front_key none) front q.front_counter,
  )

  pub span : (front : ℤ) (n : ℕ) → front +ℤ pos n -ℤ front ≡ pos n
  span front n = omega int_laws

  -- If a deque holds a list of values, len returns the length of the list, None values counted,
  -- and changes nothing.
  pub len-length :
      (c : Cache h) (front : ℤ) (items : List Value)
      → IsDeque c front items
      → len h c ≡ (ok (pos (length items)), c)
  unfolding len
  len-length c front items q = rw (queue_range_lem c front items q, span front (length items))

  items_from-present :
      (c : Cache h) (i : ℤ) (vs : List Value)
      → Holds sound none c i vs
      → items_from h i (length vs) c ≡ (ok (present vs), c)
  unfolding items_from present
  items_from-present c i [] held = refl
  items_from-present c i (v ∷ vs) (here, rest) = rw (
    get_value-view sound c (item_key none i) null,
    here,
    items_from-present c (i +ℤ pos 1) vs rest,
  )

  -- If a deque holds a list of values, iterating it yields those that are not None, in order, and
  -- changes nothing.
  pub all_items-present :
      (c : Cache h) (front : ℤ) (items : List Value)
      → IsDeque c front items
      → all_items h c ≡ (ok (present items), c)
  unfolding all_items
  all_items-present c front items q =
      rw (queue_range_lem c front items q, span front (length items))
        (items_from-present c front items q.held)
