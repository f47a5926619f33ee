-- ===== src/Deque/Edit.antt =====
-- Access to a deque by index, and `remove`.
use diskcache_rs.Base.{
  ℕ, zero, suc, ◌≤◌, ◌<◌, String, ◌≡◌, refl, sym, ◌∙◌, ap, true, false, ◌||◌, ◌≢◌, Option, none,
  some, List, [], ◌∷◌, arith, length, eq_refl,
}
use diskcache_rs.Base.Int.{ℤ, pos, negsuc, ◌+ℤ◌, int_laws, leb_ℤ, ltb_ℤ, pos_part, neg_part}
use diskcache_rs.Cache.Laws.{ready, IsWrite, store_writes}
use diskcache_rs.Cache.Queue.{item_key, counter}
use diskcache_rs.Cache.Queue.Holds.{Holds, Holds-write, shift, add_zero, ready_of_view}
use diskcache_rs.Cache.Queue.Keys.{item_key_inj, item-ne-counter, item-ne-front, str_eq_of_ne}
use diskcache_rs.Cache.State.{Cache}
use diskcache_rs.Cache.View.{view, get_or}
use diskcache_rs.Deque.{place, without, find, set_item, delete_item, remove, rebuild, from_end}
use diskcache_rs.Deque.Items.{IsDeque, present, all_items-present, queue_range_lem, span}
use diskcache_rs.Deque.Rebuild.{Fits, all_plain}
use diskcache_rs.Deque.Reorder.{rebuild_fewer, length-present-le, all_plain-present}
use diskcache_rs.Exec.{ok, raised, Error}
use diskcache_rs.Host.{Host}
use diskcache_rs.Host.Sound.{IsSound}
use diskcache_rs.Value.{Value, null, is_plain}

pub length-without-le : (vs : List Value) (i : ℕ) → length (without vs i) ≤ length vs
unfolding without
length-without-le [] i = omega arith
length-without-le (v ∷ vs) zero = omega arith
length-without-le (v ∷ vs) (suc i) = omega (arith, length-without-le vs i)

pub all_plain-without :
    (vs : List Value) (i : ℕ) → all_plain vs ≡ true → all_plain (without vs i) ≡ true
unfolding without all_plain
all_plain-without [] i h = refl
all_plain-without (v ∷ vs) zero h = ground arith
all_plain-without (v ∷ vs) (suc i) h = ground (arith, all_plain-without vs i (ground arith))

-- the list with another value at a place
unfoldable pub replaced : List Value → ℕ → Value → List Value
replaced [] i w = []
replaced (v ∷ vs) zero w = w ∷ vs
replaced (v ∷ vs) (suc i) w = v ∷ replaced vs i w

length-replaced : (vs : List Value) (i : ℕ) (w : Value) → length (replaced vs i w) ≡ length vs
unfolding replaced
length-replaced [] i w = refl
length-replaced (v ∷ vs) zero w = refl
length-replaced (v ∷ vs) (suc i) w = ap suc (length-replaced vs i w)

module _ {h : Host} (sound : IsSound h) (maxlen : Option ℕ) (c : Cache h) (front : ℤ)
    (items : List Value) (q : IsDeque sound c front items) (fits : Fits maxlen (length items))
    (plain : all_plain items ≡ true)
    (can : (n : ℕ) → n < length items → ready sound c (item_key none (pos n)) ≡ true) where
  -- the values that are not None without the one at a place
  rebuild-without :
      (i : ℕ)
      → (c' : Cache h) × (rebuild h maxlen (without (present items) i) c ≡ (ok tt, c'))
        × IsDeque sound c' (pos 0) (without (present items) i)
  rebuild-without i =
      rebuild_fewer sound maxlen c front items q fits plain can (without (present items) i)
        (omega (arith, length-without-le (present items) i, length-present-le items))
        (all_plain-without (present items) i (all_plain-present items plain))

  -- If a deque holds plain values, no more than its maximum, the keys of the indices below its
  -- length are taken, and a value equals the one at some place of those that are not None and
  -- none before it, then remove succeeds and leaves those values without the one at that place.
  pub remove_lem :
      (v : Value) (i : ℕ)
      → find h v (present items) ≡ ok i
      → (c' : Cache h) × (remove h maxlen v c ≡ (ok tt, c'))
        × IsDeque sound c' (pos 0) (without (present items) i)
  unfolding remove
  remove_lem v i first =
      let (c', e, q') = rebuild-without i in
      (c', rw (all_items-present sound c front items q, first, e), q')

  pub remove_missing :
      (v : Value) (x : Error)
      → find h v (present items) ≡ raised x
      → remove h maxlen v c ≡ (raised x, c)
  unfolding remove
  remove_missing v x missing = rw (all_items-present sound c front items q, missing)

  -- The deletion of an index in range leaves the values that are not None without the one there.
  pub delete_item_lem :
      (index : ℤ) (i : ℕ)
      → place index (length (present items)) ≡ ok i
      → (c' : Cache h) × (delete_item h maxlen index c ≡ (ok tt, c'))
        × IsDeque sound c' (pos 0) (without (present items) i)
  unfolding delete_item
  delete_item_lem index i there =
      let (c', e, q') = rebuild-without i in
      (c', rw (all_items-present sound c front items q, there, e), q')

beyond : (i : ℤ) (m : ℕ) → i ≢ i +ℤ pos 1 +ℤ pos m
beyond i m e = omega (int_laws, ap pos_part e, ap neg_part e)

later : (i : ℤ) (n : ℕ) → i +ℤ pos (suc n) ≢ i
later i n e = omega (int_laws, ap pos_part e, ap neg_part e)

within : (n len : ℕ) → n < len → (ltb_ℤ (pos n) (pos 0) || leb_ℤ (pos len) (pos n)) ≡ false
within n len lt = ground arith

-- The place of an index is the index counted from the front.
from_end-place :
    (h : Host) (index : ℤ) (len n : ℕ)
    → place index len ≡ ok n
    → (n < len) × (from_end h index (pos len) ≡ pos n)
unfolding place from_end ◌+ℤ◌
from_end-place h (pos i) len n there = ground arith
from_end-place h (negsuc i) len n there = ground arith

module _ {h : Host} (sound : IsSound h) where
  -- the value at a place
  Holds-at :
      (c : Cache h) (i k : ℤ) (vs : List Value) (n : ℕ)
      → k ≡ i +ℤ pos n
      → n < length vs
      → Holds sound none c i vs
      → (v : Value) × (view sound c (item_key none k) ≡ some v)
  Holds-at c i k [] n e lt held = absurd (omega arith)
  Holds-at c i k (v ∷ vs) zero e lt (here, rest) =
      let same : k ≡ i = e ∙ add_zero i in (v, rw (same) here)
  Holds-at c i k (v ∷ vs) (suc n) e lt (here, rest) =
      Holds-at c (i +ℤ pos 1) k vs n (e ∙ sym (shift i n)) (omega arith) rest

  -- a write to the key of a place
  Holds-replaced :
      (c c' : Cache h) (i k : ℤ) (vs : List Value) (n : ℕ) (w : Value)
      → IsWrite sound c (item_key none k) w c'
      → k ≡ i +ℤ pos n
      → n < length vs
      → Holds sound none c i vs
      → Holds sound none c' i (replaced vs n w)
  unfolding replaced
  Holds-replaced c c' i k [] n w wr e lt held = absurd (omega arith)
  Holds-replaced c c' i k (v ∷ vs) zero w wr e lt (here, rest) =
      let same : k ≡ i = e ∙ add_zero i in
      (
        wr.views (item_key none i) ∙ rw (same, eq_refl (item_key none i)),
        Holds-write sound none (i +ℤ pos 1) vs wr
            (λ m lt' clash. beyond i m (sym same ∙ item_key_inj none _ _ clash)) rest,
      )
  Holds-replaced c c' i k (v ∷ vs) (suc n) w wr e lt (here, rest) = (
    wr.views (item_key none i)
        ∙ rw
            (str_eq_of_ne (item_key none k) (item_key none i)
              (λ clash. later i n (sym e ∙ item_key_inj none _ _ clash)))
            here,
    Holds-replaced c c' (i +ℤ pos 1) k vs n w wr (e ∙ sym (shift i n)) (omega arith) rest,
  )

  untouched :
      (c c' : Cache h) (k j : String) (v : Value)
      → IsWrite sound c k v c'
      → k ≢ j
      → view sound c' j ≡ view sound c j
  untouched c c' k j v w apart = w.views j ∙ rw (str_eq_of_ne k j apart)

  -- If a deque holds a list of values, an index is in its range, counted from the end if
  -- negative, and the new value is plain, then the assignment d[index] = value succeeds and
  -- leaves the list with the value at that place, None values counted.
  pub set_item_lem :
      (c : Cache h) (front : ℤ) (items : List Value) (index : ℤ) (n : ℕ) (v : Value)
      → IsDeque sound c front items
      → place index (length items) ≡ ok n
      → is_plain v ≡ true
      → (c' : Cache h) × (set_item h index v c ≡ (ok tt, c'))
        × IsDeque sound c' front (replaced items n v)
  unfolding set_item
  set_item_lem c front items index n v q there plain =
      let (lt, at) = from_end-place h index (length items) n there in
      let (old, here) = Holds-at c front (front +ℤ pos n) items n refl lt q.held in
      let (c', e, w) =
        store_writes sound (item_key none (front +ℤ pos n)) v none none c
          (ready_of_view sound none c _ old here) plain in
      (
        c',
        rw (
          queue_range_lem sound c front items q,
          span sound front (length items),
          at,
          within n (length items) lt,
          e,
        ),
        record {
          back_counter =
              ap (λ o. counter h (get_or o null))
                (untouched c c' _ _ v w (item-ne-counter none (front +ℤ pos n)))
              ∙ q.back_counter
              ∙ ap (λ m. ok (front +ℤ pos m)) (sym (length-replaced items n v));
          front_counter =
              ap (λ o. counter h (get_or o null))
                (untouched c c' _ _ v w (item-ne-front none (front +ℤ pos n)))
              ∙ q.front_counter;
          held = Holds-replaced c c' front (front +ℤ pos n) items n v w refl lt q.held;
          takes_counter = w.opens _ ∙ q.takes_counter;
          takes_front = w.opens _ ∙ q.takes_front;
        },
      )
