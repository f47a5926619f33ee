-- ===== src/Deque/Held.antt =====
-- What a deque keeps from one call to the next, and the moves that change its values.
use diskcache_rs.Base.{ℕ, ◌≤◌, ◌≡◌, true, Option, none, List, arith, length, String}
use diskcache_rs.Base.Int.{ℤ}
use diskcache_rs.Cache.Laws.{ready}
use diskcache_rs.Cache.Queue.{item_key, counter_key}
use diskcache_rs.Cache.State.{Cache}
use diskcache_rs.Deque.Items.{IsDeque}
use diskcache_rs.Deque.Moves.{Move, move_step, move_answer}
use diskcache_rs.Deque.Rebuild.{Fits, Fits-le, all_plain}
use diskcache_rs.Host.{Host}
use diskcache_rs.Host.Sound.{IsSound}
use diskcache_rs.Value.{Value}

module _ {h : Host} (sound : IsSound h) (maxlen : Option ℕ) where
  -- The deque holds the values, all plain and no more than its maximum, and the extension module
  -- takes the keys of all indices.
  pub record IsHeld (c : Cache h) (items : List Value) : Type 0 where
    pub front : ℤ
    pub deque : IsDeque sound c front items
    pub fits : Fits maxlen (length items)
    pub plain : all_plain items ≡ true
    pub takes : (i : ℤ) → ready sound c (item_key none i) ≡ true

  -- An open cache takes what another took.
  pub ready_open :
      (c c' : Cache h) (j k : String)
      → ready sound c k ≡ true
      → ready sound c' j ≡ true
      → ready sound c' k ≡ true
  unfolding ready
  ready_open c c' j k can open_ = ground arith

  -- the deque after a call
  pub still_held :
      (c c' : Cache h) (items : List Value) (front : ℤ) (items' : List Value)
      → IsHeld c items
      → IsDeque sound c' front items'
      → Fits maxlen (length items')
      → all_plain items' ≡ true
      → IsHeld c' items'
  still_held c c' items front items' held q fits plain = record {
    front = front;
    deque = q;
    fits = fits;
    plain = plain;
    takes = λ i. ready_open c c' (counter_key none) _ (held.takes i) q.takes_counter;
  }

  abbrev pub Held : Cache h → List Value → Type 0
  Held = IsHeld

  -- what a move makes of a deque that holds a list
  abbrev pub Outcome : Move → Cache h → List Value → Type 0
  Outcome move c vs =
      (c' : Cache h) × (move_step h maxlen move c ≡ ((move_answer h maxlen move vs).0, c'))
      × Held c' (move_answer h maxlen move vs).1

  -- a list that a deque of more values may hold
  pub fewer :
      (vs ws : List Value)
      → length ws ≤ length vs
      → Fits maxlen (length vs)
      → Fits maxlen (length ws)
  fewer vs ws le fits = Fits-le maxlen _ _ fits le
