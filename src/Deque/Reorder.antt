-- ===== src/Deque/Reorder.antt =====
-- `reverse` and `rotate` of a deque.
use mathlib.Core.List.{reverse-cons}
use diskcache_rs.Base.{
  ℕ, zero, suc, ◌+◌, ◌-◌, ◌≤◌, ◌<◌, ◌≡◌, refl, true, false, Option, none, List, [], ◌∷◌, ◌++◌,
  reverse, arith, length, length-append, drop, take, ◌==◌, ◌≢◌,
}
use diskcache_rs.Base.Int.{ℤ, pos, leb_ℤ}
use diskcache_rs.Cache.Laws.{ready}
use diskcache_rs.Cache.Queue.{item_key}
use diskcache_rs.Cache.State.{Cache}
use diskcache_rs.Deque.{reverse_items, rotate, rotated, mod_int, rebuild}
use diskcache_rs.Deque.Items.{IsDeque, present, all_items-present, len-length}
use diskcache_rs.Deque.Rebuild.{Fits, Fits-le, all_plain, rebuild_lem}
use diskcache_rs.Exec.{ok}
use diskcache_rs.Host.{Host}
use diskcache_rs.Host.Sound.{IsSound}
use diskcache_rs.Value.{Value}

pub length-present-le : (vs : List Value) → length (present vs) ≤ length vs
unfolding present
length-present-le [] = omega arith
length-present-le (v ∷ vs) = ground (arith, length-present-le vs)

pub all_plain-present : (vs : List Value) → all_plain vs ≡ true → all_plain (present vs) ≡ true
unfolding present all_plain
all_plain-present [] h = refl
all_plain-present (v ∷ vs) h = ground (arith, all_plain-present vs (ground arith))

pub all_plain-append :
    (vs ws : List Value) → all_plain vs ≡ true → all_plain ws ≡ true → all_plain (vs ++ ws) ≡ true
unfolding all_plain
all_plain-append [] ws h k = k
all_plain-append (v ∷ vs) ws h k = ground (arith, all_plain-append vs ws (ground arith) k)

pub all_plain-take : (n : ℕ) (vs : List Value) → all_plain vs ≡ true → all_plain (take n vs) ≡ true
unfolding all_plain
all_plain-take zero vs h = refl
all_plain-take (suc n) [] h = refl
all_plain-take (suc n) (v ∷ vs) h = ground (arith, all_plain-take n vs (ground arith))

pub all_plain-drop : (n : ℕ) (vs : List Value) → all_plain vs ≡ true → all_plain (drop n vs) ≡ true
unfolding all_plain
all_plain-drop zero vs h = h
all_plain-drop (suc n) [] h = refl
all_plain-drop (suc n) (v ∷ vs) h = all_plain-drop n vs (ground arith)

length-drop-take : (n : ℕ) (vs : List Value) → length (drop n vs) + length (take n vs) ≡ length vs
length-drop-take zero vs = omega arith
length-drop-take (suc n) [] = omega arith
length-drop-take (suc n) (v ∷ vs) = omega (arith, length-drop-take n vs)

pub length-rotated : (s : ℕ) (vs : List Value) → length (rotated s vs) ≡ length vs
unfolding rotated
length-rotated s vs =
    let n = length vs - s in
    omega (arith, length-append {0} (drop n vs) (take n vs), length-drop-take n vs)

pub all_plain-reverse : (vs : List Value) → all_plain vs ≡ true → all_plain (reverse vs) ≡ true
unfolding all_plain
all_plain-reverse [] h = refl
all_plain-reverse (v ∷ vs) h =
    rw (reverse-cons v vs)
      (all_plain-append (reverse vs) (v ∷ []) (all_plain-reverse vs (ground arith)) (ground arith))

pub length-reverse : (vs : List Value) → length (reverse vs) ≡ length vs
length-reverse [] = refl
length-reverse (v ∷ vs) =
    rw (reverse-cons v vs)
      (omega (arith, length-append {0} (reverse vs) (v ∷ []), length-reverse vs))

module _ {h : Host} (sound : IsSound h) (maxlen : Option ℕ) (c : Cache h) (front : ℤ)
    (items : List Value) (q : IsDeque sound c front items) (fits : Fits maxlen (length items))
    (plain : all_plain items ≡ true)
    (can : (n : ℕ) → n < length items → ready sound c (item_key none (pos n)) ≡ true) where
  -- a rebuild from no more values than there were
  pub rebuild_fewer :
      (vs : List Value)
      → length vs ≤ length items
      → all_plain vs ≡ true
      → (c' : Cache h) × (rebuild h maxlen vs c ≡ (ok tt, c')) × IsDeque sound c' (pos 0) vs
  rebuild_fewer vs fewer plain' =
      rebuild_lem sound maxlen c front items vs q (Fits-le maxlen _ _ fits fewer) plain'
        (λ n lt. can n (omega arith))

  -- If a deque holds plain values, no more than its maximum, and the keys of the indices below
  -- its length are taken, then reverse succeeds and leaves the values that are not None in the
  -- opposite order.
  pub reverse_items_lem :
      (c' : Cache h) × (reverse_items h maxlen c ≡ (ok tt, c'))
      × IsDeque sound c' (pos 0) (reverse (present items))
  unfolding reverse_items
  reverse_items_lem =
      let (c', e, q') =
        rebuild_fewer (reverse (present items))
          (omega (arith, length-reverse (present items), length-present-le items))
          (all_plain-reverse (present items) (all_plain-present items plain)) in
      (c', rw (all_items-present sound c front items q, e), q')

  -- If a deque holds two values or more, all plain and no more than its maximum, the keys of the
  -- indices below its length are taken, and the steps are no multiple of its length, then rotate
  -- succeeds and leaves the values that are not None, rotated to the right by the remainder of
  -- the steps.
  pub rotate_lem :
      (steps : ℤ)
      → 1 < length items
      → mod_int steps (length items) ≢ 0
      → (c' : Cache h) × (rotate h maxlen steps c ≡ (ok tt, c'))
        × IsDeque sound c' (pos 0) (rotated (mod_int steps (length items)) (present items))
  unfolding rotate rotated
  rotate_lem steps many moves =
      let vs = rotated (mod_int steps (length items)) (present items) in
      let (c', e, q') =
        rebuild_fewer vs
          (omega (
            arith,
            length-rotated (mod_int steps (length items)) (present items),
            length-present-le items,
          ))
          (all_plain-append _ _ (all_plain-drop _ _ (all_plain-present items plain))
            (all_plain-take _ _ (all_plain-present items plain))) in
      let far : leb_ℤ (pos (length items)) (pos 1) ≡ false = ground arith in
      let turns : (mod_int steps (length items) == 0) ≡ false = ground arith in
      (
        c',
        rw (
          len-length sound c front items q,
          far,
          turns,
          all_items-present sound c front items q,
          e,
        ),
        q',
      )
