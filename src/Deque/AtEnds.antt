-- ===== src/Deque/AtEnds.antt =====
-- What the methods of a deque that concern its ends make of a list of values.
use diskcache_rs.Base.{
  ℕ, ◌≡◌, ap, true, Option, List, [], ◌∷◌, ◌++◌, arith, length, length-append, inl, inr,
}
use diskcache_rs.Cache.State.{Cache}
use diskcache_rs.Deque.Ends.{pop_left_lem, pop_lem, pop_empty, peek_empty, peek_lem, peek_left_lem}
use diskcache_rs.Deque.Held.{Held, Outcome, fewer, still_held}
use diskcache_rs.Deque.Limits.{
  append_limited, append_left_limited, split_last_lem, Fits-last_of, Fits-first_of, last_of-plain,
  first_of-plain, plain_cons, plain_snoc, plain_front,
}
use diskcache_rs.Deque.Items.{IsDeque}
use diskcache_rs.Deque.Moves.{Move, move_step, move_answer, split_first}
use diskcache_rs.Deque.Rebuild.{all_plain}
use diskcache_rs.Host.{Host}
use diskcache_rs.Host.Sound.{IsSound}
use diskcache_rs.Value.{Value, is_plain}

module _ {h : Host} (sound : IsSound h) (maxlen : Option ℕ) where
  pub append-Outcome :
      (v : Value) (c : Cache h) (vs : List Value)
      → is_plain v ≡ true
      → Held sound maxlen c vs
      → Outcome sound maxlen (Move.append v) c vs
  unfolding move_step move_answer
  append-Outcome v c vs plain held =
      let (c', front, e, q) =
        append_limited sound c held.front vs v held.deque plain held.takes maxlen held.fits in
      (
        c',
        rw (e),
        still_held sound maxlen c c' vs front _ held q (Fits-last_of maxlen _)
            (last_of-plain maxlen _ (plain_snoc v vs plain held.plain)),
      )

  pub append_left-Outcome :
      (v : Value) (c : Cache h) (vs : List Value)
      → is_plain v ≡ true
      → Held sound maxlen c vs
      → Outcome sound maxlen (Move.append_left v) c vs
  unfolding move_step move_answer
  append_left-Outcome v c vs plain held =
      let (c', e, q) =
        append_left_limited sound c held.front vs v held.deque plain held.takes maxlen held.fits in
      (
        c',
        rw (e),
        still_held sound maxlen c c' vs _ _ held q (Fits-first_of maxlen _)
            (first_of-plain maxlen _ (plain_cons v vs plain held.plain)),
      )

  pub pop_left-Outcome :
      (c : Cache h) (vs : List Value)
      → Held sound maxlen c vs
      → Outcome sound maxlen Move.pop_left c vs
  unfolding move_step move_answer split_first all_plain
  pop_left-Outcome c [] held = (c, rw ((pop_empty sound c held.front held.deque).1), held)
  pop_left-Outcome c (v ∷ vs) held =
      let (c', e, q) = pop_left_lem sound c held.front v vs held.deque in
      (
        c',
        rw (e),
        still_held sound maxlen c c' (v ∷ vs) _ vs held q
            (fewer sound maxlen (v ∷ vs) vs (omega arith) held.fits) (ground (arith, held.plain)),
      )

  pub peek_left-Outcome :
      (c : Cache h) (vs : List Value)
      → Held sound maxlen c vs
      → Outcome sound maxlen Move.peek_left c vs
  unfolding move_step move_answer split_first
  peek_left-Outcome c [] held = (c, rw ((peek_empty sound c held.front held.deque).1), held)
  peek_left-Outcome c (v ∷ vs) held =
      (c, rw (peek_left_lem sound c held.front v vs held.deque), held)

  pub pop-Outcome :
      (c : Cache h) (vs : List Value) → Held sound maxlen c vs → Outcome sound maxlen Move.pop c vs
  unfolding move_step move_answer
  pop-Outcome c vs held = elim (split_last_lem vs) [
    | inl (e, gone) ↦
        let q : IsDeque sound c held.front [] = rw e at held.deque in
        (c, rw (gone, (pop_empty sound c held.front q).0), rw (gone) held)
    | inr (init, w, e, found) ↦
        let q : IsDeque sound c held.front (init ++ w ∷ []) = rw e at held.deque in
        let (c', e', q') = pop_lem sound c held.front w init q in
        (
          c',
          rw (found, e'),
          rw (found) (
              still_held sound maxlen c c' vs _ init held q'
                (fewer sound maxlen vs init
                  (omega (arith, ap length e, length-append {0} init (w ∷ []))) held.fits)
                (plain_front init (w ∷ []) (rw e at held.plain))),
        )
  ]

  pub peek-Outcome :
      (c : Cache h) (vs : List Value) → Held sound maxlen c vs → Outcome sound maxlen Move.peek c vs
  unfolding move_step move_answer
  peek-Outcome c vs held = elim (split_last_lem vs) [
    | inl (e, gone) ↦
        let q : IsDeque sound c held.front [] = rw e at held.deque in
        (c, rw (gone, (peek_empty sound c held.front q).0), rw (gone) held)
    | inr (init, w, e, found) ↦
        let q : IsDeque sound c held.front (init ++ w ∷ []) = rw e at held.deque in
        (c, rw (found, peek_lem sound c held.front w init q), rw (found) held)
  ]
