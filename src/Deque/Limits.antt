-- ===== src/Deque/Limits.antt =====
-- The values that a deque with a maximum length keeps, and adding to it at either end.
use diskcache_rs.Base.{
  ℕ, zero, suc, ◌-◌, ◌≤◌, ◌≡◌, refl, true, Option, none, some, List, [], ◌∷◌, ◌++◌, arith, length,
  inl, inr, ◌⊎◌, take, drop, leb,
}
use diskcache_rs.Base.Int.{ℤ, pos, ◌-ℤ◌, leb_ℤ}
use diskcache_rs.Cache.Laws.{ready}
use diskcache_rs.Cache.Queue.{item_key}
use diskcache_rs.Cache.Queue.Push.{push_front}
use diskcache_rs.Cache.State.{Cache}
use diskcache_rs.Deque
use diskcache_rs.Deque.{place, elem_at, find, without, rotated, mod_int}
use diskcache_rs.Deque.Ends.{append_unbounded, append_bounded}
use diskcache_rs.Deque.Items.{IsDeque}
use diskcache_rs.Deque.Left.{append_left_bounded}
use diskcache_rs.Deque.Moves.{last_of, first_of, split_last}
use diskcache_rs.Deque.Rebuild.{Fits, all_plain}
use diskcache_rs.Deque.Reorder.{all_plain-append, all_plain-drop, all_plain-take}
use diskcache_rs.Exec.{ok}
use diskcache_rs.Host.{Host}
use diskcache_rs.Host.Sound.{IsSound}
use diskcache_rs.Value.{Value, is_plain}

length-drop : (n : ℕ) (vs : List Value) → length (drop n vs) ≡ length vs - n
length-drop zero vs = omega arith
length-drop (suc n) [] = omega arith
length-drop (suc n) (v ∷ vs) = omega (arith, length-drop n vs)

length-take-le : (n : ℕ) (vs : List Value) → length (take n vs) ≤ n
length-take-le zero vs = omega arith
length-take-le (suc n) [] = omega arith
length-take-le (suc n) (v ∷ vs) = omega (arith, length-take-le n vs)

pub Fits-last_of : (maxlen : Option ℕ) (vs : List Value) → Fits maxlen (length (last_of maxlen vs))
Fits-last_of none vs = tt
Fits-last_of (some m) vs = omega (arith, length-drop (length vs - m) vs)

pub Fits-first_of :
    (maxlen : Option ℕ) (vs : List Value) → Fits maxlen (length (first_of maxlen vs))
Fits-first_of none vs = tt
Fits-first_of (some m) vs = length-take-le m vs

pub last_of-plain :
    (maxlen : Option ℕ) (vs : List Value)
    → all_plain vs ≡ true
    → all_plain (last_of maxlen vs) ≡ true
last_of-plain none vs plain = plain
last_of-plain (some m) vs plain = all_plain-drop (length vs - m) vs plain

pub first_of-plain :
    (maxlen : Option ℕ) (vs : List Value)
    → all_plain vs ≡ true
    → all_plain (first_of maxlen vs) ≡ true
first_of-plain none vs plain = plain
first_of-plain (some m) vs plain = all_plain-take m vs plain

pub plain_cons :
    (v : Value) (vs : List Value)
    → is_plain v ≡ true
    → all_plain vs ≡ true
    → all_plain (v ∷ vs) ≡ true
unfolding all_plain
plain_cons v vs p q = ground arith

pub plain_snoc :
    (v : Value) (vs : List Value)
    → is_plain v ≡ true
    → all_plain vs ≡ true
    → all_plain (vs ++ v ∷ []) ≡ true
plain_snoc v vs p q = all_plain-append vs (v ∷ []) q (plain_cons v [] p (unfold all_plain in refl))

pub split_last_lem :
    (vs : List Value)
    → ((vs ≡ []) × (split_last vs ≡ none))
      ⊎ ((front : List Value) × (w : Value) × (vs ≡ front ++ w ∷ [])
          × (split_last vs ≡ some (front, w)))
unfolding split_last
split_last_lem [] = inl (refl, refl)
split_last_lem (v ∷ vs) = elim (split_last_lem vs) [
  | inl (e, gone) ↦ inr ([], v, rw (e), rw (gone))
  | inr (front, w, e, found) ↦ inr (v ∷ front, w, rw (← e), rw (found))
]

pub plain_front : (vs ws : List Value) → all_plain (vs ++ ws) ≡ true → all_plain vs ≡ true
unfolding all_plain
plain_front [] ws plain = refl
plain_front (v ∷ vs) ws plain = ground (arith, plain_front vs ws (ground arith))

pub rotated-plain :
    (s : ℕ) (vs : List Value) → all_plain vs ≡ true → all_plain (rotated s vs) ≡ true
unfolding rotated
rotated-plain s vs plain =
    all_plain-append (drop (length vs - s) vs) (take (length vs - s) vs) (all_plain-drop _ vs plain)
      (all_plain-take _ vs plain)

pub leb-pos : (a b : ℕ) → leb_ℤ (pos a) (pos b) ≡ leb a b
leb-pos a b = ground arith

module _ {h : Host} (sound : IsSound h) (c : Cache h) (front : ℤ) (items : List Value) (v : Value)
    (q : IsDeque sound c front items) (plain : is_plain v ≡ true)
    (can : (i : ℤ) → ready sound c (item_key none i) ≡ true) where
  -- append and appendleft, with and without a maximum length
  pub append_limited :
      (maxlen : Option ℕ)
      → Fits maxlen (length items)
      → (c' : Cache h) × (front' : ℤ) × (Deque.append h maxlen v c ≡ (ok tt, c'))
        × IsDeque sound c' front' (last_of maxlen (items ++ v ∷ []))
  append_limited none fits =
      let (c', e, q') = append_unbounded sound c front items v q plain (can _) in (c', front, e, q')
  append_limited (some m) fits = append_bounded sound m c front items v q fits plain (can _)

  pub append_left_limited :
      (maxlen : Option ℕ)
      → Fits maxlen (length items)
      → (c' : Cache h) × (Deque.append_left h maxlen v c ≡ (ok tt, c'))
        × IsDeque sound c' (front -ℤ pos 1) (first_of maxlen (v ∷ items))
  unfolding Deque.append_left Deque.too_long
  append_left_limited none fits =
      let (c', e, q', _) = push_front sound none c front items q v plain none none (can _) in
      (c', rw (e), q')
  append_left_limited (some m) fits =
      append_left_bounded sound m c front items v q fits plain (can _)
