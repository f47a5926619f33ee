-- ===== src/Deque.antt =====
-- The class `Deque` of python/diskcache_rs/cache.py: a double-ended queue of values kept in the
-- queue without prefix of a cache of its own. A method acts on that cache; the maximum length
-- never changes and is an argument of the methods that read it.
pub mod Items
pub mod Ends
pub mod Left
pub mod Rebuild
pub mod Reorder
pub mod Edit
pub mod Compare
pub mod Moves
pub mod Limits
pub mod Held
pub mod AtEnds
pub mod Inside
pub mod Trace
use diskcache_rs.Base.{
  ℕ, zero, suc, ◌+◌, ◌-◌, ◌%◌, String, Bool, true, false, ◌&&◌, ◌||◌, not, Option, none, some, List,
  [], ◌∷◌, ◌++◌, reverse, length, get_elem?, take, drop, ltb, leb, ◌==◌, if◌then◌else◌,
}
use diskcache_rs.Base.Int.{ℤ, pos, negsuc, pos_part, ◌+ℤ◌, ◌-ℤ◌, ltb_ℤ, leb_ℤ}
use diskcache_rs.Cache.Queue
use diskcache_rs.Cache.Queue.{Pulled, item_key, counter_key, front_key, read_counter}
use diskcache_rs.Cache.Read.{get_value}
use diskcache_rs.Cache.Remove
use diskcache_rs.Cache.State.{Cache}
use diskcache_rs.Cache.Write
use diskcache_rs.Exec.{
  Exec, Result, ok, raised, index_error, value_error, pure, raise, lift, and_then, ◌>>=◌, ◌>>◌,
}
use diskcache_rs.Host.{Host}
use diskcache_rs.Value.{Value, null, is_null}

-- `items[index]`: the place of an index, counted from the end if it is negative
unfoldable pub place : ℤ → ℕ → Result ℕ
place (pos i) n = if ltb i n then ok i else raised index_error
place (negsuc i) n = if ltb i n then ok (n - suc i) else raised index_error

unfoldable pub elem_at : List Value → ℕ → Result Value
elem_at [] i = raised index_error
elem_at (v ∷ vs) zero = ok v
elem_at (v ∷ vs) (suc i) = elem_at vs i

-- `del items[i]`
unfoldable pub without : List Value → ℕ → List Value
without [] i = []
without (v ∷ vs) zero = vs
without (v ∷ vs) (suc i) = v ∷ without vs i

-- `steps % length`, which Python takes in [0, length)
unfoldable pub mod_int : ℤ → ℕ → ℕ
mod_int (pos a) n = a % n
mod_int (negsuc a) n = n - 1 - a % n

-- `items[-steps:] + items[:-steps]` for positive `steps`
unfoldable pub rotated : ℕ → List Value → List Value
rotated steps items = drop (length items - steps) items ++ take (length items - steps) items

module _ (h : Host) where
  -- `_get_queue_range`
  unfoldable pub queue_range : Exec (Cache h) (ℤ × ℤ)
  queue_range = do
    back ← read_counter h (counter_key none)
    front ← read_counter h (front_key none)
    pure (front, back)

  -- `len(self)`
  unfoldable pub len : Exec (Cache h) ℤ
  unfolding queue_range
  len = do (front, back) ← queue_range; pure (back -ℤ front)

  -- the entries from `i` on, as many as given, without those that read as None
  unfoldable pub items_from : ℤ → ℕ → Exec (Cache h) (List Value)
  items_from i zero = pure []
  items_from i (suc n) = do
    v ← get_value h (item_key none i) null
    rest ← items_from (i +ℤ pos 1) n
    pure (if is_null v then rest else v ∷ rest)

  -- `_get_all_items`, and the values that `__iter__` yields: `range(front, back)`
  unfoldable pub all_items : Exec (Cache h) (List Value)
  unfolding queue_range items_from
  all_items = do (front, back) ← queue_range; items_from front (pos_part (back -ℤ front))

  -- the result of a `pull` or `peek`, or the exception for its default
  unfoldable pub or_empty : Pulled → Exec (Cache h) Value
  or_empty r = if is_null r.key && is_null r.value then raise index_error else pure r.value

  unfoldable pub pop : Exec (Cache h) Value
  unfolding or_empty
  pop = do r ← Queue.pull h none (null, null) "back" false false; or_empty r

  unfoldable pub pop_left : Exec (Cache h) Value
  unfolding or_empty
  pop_left = do r ← Queue.pull h none (null, null) "front" false false; or_empty r

  unfoldable pub peek : Exec (Cache h) Value
  unfolding or_empty
  peek = do r ← Queue.peek h none (null, null) "back" false false; or_empty r

  unfoldable pub peek_left : Exec (Cache h) Value
  unfolding or_empty
  peek_left = do r ← Queue.peek h none (null, null) "front" false false; or_empty r

  -- the test of `append`: is the deque longer than its maximum?
  unfoldable pub too_long : Option ℕ → Exec (Cache h) Bool
  too_long none = pure false
  too_long (some m) = do n ← len; pure (ltb_ℤ (pos m) n)

  unfoldable pub append : Option ℕ → Value → Exec (Cache h) (Unit {0})
  unfolding too_long
  append maxlen value = do
    Queue.push h value none "back" none none
    over ← too_long maxlen
    if over then (pop_left >> pure tt) else pure tt

  unfoldable pub append_left : Option ℕ → Value → Exec (Cache h) (Unit {0})
  unfolding too_long
  append_left maxlen value = do
    Queue.push h value none "front" none none
    over ← too_long maxlen
    if over then (pop >> pure tt) else pure tt

  unfoldable pub extend : Option ℕ → List Value → Exec (Cache h) (Unit {0})
  extend maxlen [] = pure tt
  extend maxlen (v ∷ vs) = do append maxlen v; extend maxlen vs

  unfoldable pub extend_left : Option ℕ → List Value → Exec (Cache h) (Unit {0})
  extend_left maxlen [] = pure tt
  extend_left maxlen (v ∷ vs) = do append_left maxlen v; extend_left maxlen vs

  unfoldable pub clear : Exec (Cache h) (Unit {0})
  clear = do Remove.clear h; pure tt

  -- `self.clear()` and an `append` of each item
  unfoldable pub rebuild : Option ℕ → List Value → Exec (Cache h) (Unit {0})
  unfolding clear
  rebuild maxlen items = do clear; extend maxlen items

  unfoldable pub get_item : ℤ → Exec (Cache h) Value
  unfolding place elem_at
  get_item index = do
    items ← all_items
    i ← lift (place index (length items))
    lift (elem_at items i)

  -- the index of `__setitem__` after `index += length`
  unfoldable pub from_end : ℤ → ℤ → ℤ
  from_end index length = if ltb_ℤ index (pos 0) then index +ℤ length else index

  unfoldable pub set_item : ℤ → Value → Exec (Cache h) (Unit {0})
  unfolding from_end
  set_item index value = do
    (front, back) ← queue_range
    let i = from_end index (back -ℤ front)
    if ltb_ℤ i (pos 0) || leb_ℤ (back -ℤ front) i
        then raise index_error
        else do Write.set h (item_key none (front +ℤ i)) value none false none; pure tt

  unfoldable pub delete_item : Option ℕ → ℤ → Exec (Cache h) (Unit {0})
  unfolding place without rebuild
  delete_item maxlen index = do
    items ← all_items
    i ← lift (place index (length items))
    rebuild maxlen (without items i)

  -- the first place of a value, by `==`
  unfoldable pub find : Value → List Value → Result ℕ
  find value [] = raised value_error
  find value (v ∷ vs) = if h.equal v value then ok 0 else and_then (find value vs) (λ i. ok (suc i))

  unfoldable pub remove : Option ℕ → Value → Exec (Cache h) (Unit {0})
  unfolding find without rebuild
  remove maxlen value = do
    items ← all_items
    i ← lift (find value items)
    rebuild maxlen (without items i)

  unfoldable pub reverse_items : Option ℕ → Exec (Cache h) (Unit {0})
  unfolding rebuild
  reverse_items maxlen = do items ← all_items; rebuild maxlen (reverse items)

  unfoldable pub rotate : Option ℕ → ℤ → Exec (Cache h) (Unit {0})
  unfolding rotated mod_int rebuild
  rotate maxlen steps = do
    n ← len
    if leb_ℤ n (pos 1)
        then pure tt
        else (if mod_int steps (pos_part n) == 0
            then pure tt
            else do items ← all_items; rebuild maxlen (rotated (mod_int steps (pos_part n)) items))

  -- `value in self` and `count(value)`, over the values that `__iter__` yields
  unfoldable pub occurrences : Value → List Value → ℕ
  occurrences value [] = 0
  occurrences value (v ∷ vs) =
      let rest = occurrences value vs in if h.equal v value then suc rest else rest

  unfoldable pub count : Value → Exec (Cache h) ℕ
  unfolding occurrences
  count value = do items ← all_items; pure (occurrences value items)

  unfoldable pub contains : Value → Exec (Cache h) Bool
  unfolding occurrences
  contains value = do items ← all_items; pure (ltb 0 (occurrences value items))
