-- ===== src/Deque/Inside.antt =====
-- What the methods of a deque that read or rearrange its values make of a list.
use diskcache_rs.Base.{
  ℕ, ◌≡◌, true, Option, List, arith, length, inl, inr, Bool-cases, leb, if◌then◌else◌, ◌==◌,
}
use diskcache_rs.Base.Int.{ℤ, pos}
use diskcache_rs.Cache.State.{Cache}
use diskcache_rs.Deque
use diskcache_rs.Deque.{place, elem_at, find, occurrences, without, rotated, mod_int}
use diskcache_rs.Deque.Edit.{remove_lem, delete_item_lem, length-without-le, all_plain-without}
use diskcache_rs.Deque.Held.{Held, Outcome, fewer, still_held}
use diskcache_rs.Deque.Limits.{rotated-plain, leb-pos}
use diskcache_rs.Deque.Items.{IsDeque, present, len-length, all_items-present}
use diskcache_rs.Deque.Moves.{Move, move_step, move_answer, turned, value_at}
use diskcache_rs.Deque.Reorder.{
  all_plain-reverse, all_plain-present, length-present-le, length-reverse, length-rotated,
  reverse_items_lem, rotate_lem,
}
use diskcache_rs.Exec.{Result-cases, ok}
use diskcache_rs.Host.{Host}
use diskcache_rs.Host.Sound.{IsSound}
use diskcache_rs.Value.{Value}

module _ {h : Host} (sound : IsSound h) (maxlen : Option ℕ) where
  pub counts :
      (v : Value) (c : Cache h) (vs : List Value)
      → Held sound maxlen c vs
      → Deque.count h v c ≡ (ok (occurrences h v (present vs)), c)
  unfolding Deque.count
  counts v c vs held = rw (all_items-present sound c held.front vs held.deque)

  pub get_item-Outcome :
      (n : ℤ) (c : Cache h) (vs : List Value)
      → Held sound maxlen c vs
      → Outcome sound maxlen (Move.get_item n) c vs
  unfolding move_step move_answer value_at Deque.get_item
  get_item-Outcome n c vs held = elim (Result-cases (place n (length (present vs)))) [
    | inr (e, outside) ↦ (c, rw (all_items-present sound c held.front vs held.deque, outside), held)
    | inl (i, there) ↦ elim (Result-cases (elem_at (present vs) i)) [
      | inl (v, found) ↦
          (c, rw (all_items-present sound c held.front vs held.deque, there, found), held)
      | inr (e, outside) ↦
          (c, rw (all_items-present sound c held.front vs held.deque, there, outside), held)
    ]
  ]

  -- a place of the values that are not None
  pub without-Held :
      (c c' : Cache h) (vs : List Value) (i : ℕ)
      → Held sound maxlen c vs
      → IsDeque sound c' (pos 0) (without (present vs) i)
      → Held sound maxlen c' (without (present vs) i)
  without-Held c c' vs i held q =
      still_held sound maxlen c c' vs (pos 0) _ held q
        (fewer sound maxlen vs _
          (omega (arith, length-without-le (present vs) i, length-present-le vs)) held.fits)
        (all_plain-without (present vs) i (all_plain-present vs held.plain))

  pub delete_item-Outcome :
      (n : ℤ) (c : Cache h) (vs : List Value)
      → Held sound maxlen c vs
      → Outcome sound maxlen (Move.delete_item n) c vs
  unfolding move_step move_answer Deque.delete_item
  delete_item-Outcome n c vs held = elim (Result-cases (place n (length (present vs)))) [
    | inl (i, there) ↦
        let (c', e, q) =
          delete_item_lem sound maxlen c held.front vs held.deque held.fits held.plain
            (λ j lt. held.takes (pos j)) n i there in
        (c', rw (there, e), rw (there) (without-Held c c' vs i held q))
    | inr (e, outside) ↦
        (c, rw (all_items-present sound c held.front vs held.deque, outside), rw (outside) held)
  ]

  pub remove-Outcome :
      (v : Value) (c : Cache h) (vs : List Value)
      → Held sound maxlen c vs
      → Outcome sound maxlen (Move.remove v) c vs
  unfolding move_step move_answer Deque.remove
  remove-Outcome v c vs held = elim (Result-cases (find h v (present vs))) [
    | inl (i, there) ↦
        let (c', e, q) =
          remove_lem sound maxlen c held.front vs held.deque held.fits held.plain
            (λ j lt. held.takes (pos j)) v i there in
        (c', rw (there, e), rw (there) (without-Held c c' vs i held q))
    | inr (e, outside) ↦
        (c, rw (all_items-present sound c held.front vs held.deque, outside), rw (outside) held)
  ]

  pub reverse_items-Outcome :
      (c : Cache h) (vs : List Value)
      → Held sound maxlen c vs
      → Outcome sound maxlen Move.reverse_items c vs
  unfolding move_step move_answer
  reverse_items-Outcome c vs held =
      let (c', e, q) =
        reverse_items_lem sound maxlen c held.front vs held.deque held.fits held.plain
          (λ j lt. held.takes (pos j)) in
      (
        c',
        rw (e),
        still_held sound maxlen c c' vs (pos 0) _ held q
            (fewer sound maxlen vs _
              (omega (arith, length-reverse (present vs), length-present-le vs)) held.fits)
            (all_plain-reverse (present vs) (all_plain-present vs held.plain)),
      )

  -- A rotation that moves nothing leaves the deque as it is, its None values too.
  rotate_idle :
      (n : ℤ) (c : Cache h) (vs : List Value)
      → Held sound maxlen c vs
      → (if leb (length vs) 1 then true else mod_int n (length vs) == 0) ≡ true
      → Deque.rotate h maxlen n c ≡ (ok tt, c)
  unfolding Deque.rotate
  rotate_idle n c vs held idle = elim (Bool-cases (leb (length vs) 1)) [
    | inl few ↦ rw (len-length sound c held.front vs held.deque, leb-pos, few)
    | inr several ↦
        let whole : (mod_int n (length vs) == 0) ≡ true = ground arith in
        rw (len-length sound c held.front vs held.deque, leb-pos, several, whole)
  ]

  pub rotate-Outcome :
      (n : ℤ) (c : Cache h) (vs : List Value)
      → Held sound maxlen c vs
      → Outcome sound maxlen (Move.rotate n) c vs
  unfolding move_step move_answer turned
  rotate-Outcome n c vs held = elim (Bool-cases (leb (length vs) 1)) [
    | inl few ↦ (c, rw (rotate_idle n c vs held (rw (few))), rw (few) held)
    | inr several ↦ elim (Bool-cases (mod_int n (length vs) == 0)) [
      | inl whole ↦ (c, rw (rotate_idle n c vs held (rw (several) whole)), rw (several, whole) held)
      | inr part ↦
          let (c', e, q) =
            rotate_lem sound maxlen c held.front vs held.deque held.fits held.plain
              (λ j lt. held.takes (pos j)) n (ground arith) (ground arith) in
          (
            c',
            rw (e),
            rw (several, part)
                (still_held sound maxlen c c' vs (pos 0) _ held q
                  (fewer sound maxlen vs _
                    (omega (
                      arith,
                      length-rotated (mod_int n (length vs)) (present vs),
                      length-present-le vs,
                    ))
                    held.fits)
                  (rotated-plain (mod_int n (length vs)) (present vs)
                    (all_plain-present vs held.plain))),
          )
    ]
  ]
