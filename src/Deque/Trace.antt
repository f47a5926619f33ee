-- ===== src/Deque/Trace.antt =====
-- A deque as a list of values, one call after another.
use diskcache_rs.Base.{ℕ, ◌≡◌, refl, true, Option, List, [], ◌∷◌, arith}
use diskcache_rs.Cache.State.{Cache}
use diskcache_rs.Contract.{run, every}
use diskcache_rs.Deque.Held.{Held, Outcome}
use diskcache_rs.Deque.Items.{len-length, all_items-present}
use diskcache_rs.Deque.Moves.{Move, is_safe, move_step, move_answer, value_at}
use diskcache_rs.Host.{Host}
use diskcache_rs.Host.Sound.{IsSound}
use diskcache_rs.Value.{Value}
use diskcache_rs.Deque.AtEnds.{
  append-Outcome, append_left-Outcome, pop-Outcome, pop_left-Outcome, peek-Outcome,
  peek_left-Outcome,
}
use diskcache_rs.Deque.Inside.{
  counts, get_item-Outcome, delete_item-Outcome, remove-Outcome, reverse_items-Outcome,
  rotate-Outcome,
}

module _ {h : Host} (sound : IsSound h) (maxlen : Option ℕ) where
  outcome :
      (move : Move) (c : Cache h) (vs : List Value)
      → is_safe move ≡ true
      → Held sound maxlen c vs
      → Outcome sound maxlen move c vs
  unfolding is_safe move_step move_answer value_at
  outcome (Move.append v) c vs plain held = append-Outcome sound maxlen v c vs plain held
  outcome (Move.append_left v) c vs plain held = append_left-Outcome sound maxlen v c vs plain held
  outcome Move.pop c vs plain held = pop-Outcome sound maxlen c vs held
  outcome Move.pop_left c vs plain held = pop_left-Outcome sound maxlen c vs held
  outcome Move.peek c vs plain held = peek-Outcome sound maxlen c vs held
  outcome Move.peek_left c vs plain held = peek_left-Outcome sound maxlen c vs held
  outcome Move.len c vs plain held = (c, rw (len-length sound c held.front vs held.deque), held)
  outcome Move.iterate c vs plain held =
      (c, rw (all_items-present sound c held.front vs held.deque), held)
  outcome (Move.count v) c vs plain held = (c, rw (counts sound maxlen v c vs held), held)
  outcome (Move.get_item n) c vs plain held = get_item-Outcome sound maxlen n c vs held
  outcome (Move.delete_item n) c vs plain held = delete_item-Outcome sound maxlen n c vs held
  outcome (Move.remove v) c vs plain held = remove-Outcome sound maxlen v c vs held
  outcome Move.reverse_items c vs plain held = reverse_items-Outcome sound maxlen c vs held
  outcome (Move.rotate n) c vs plain held = rotate-Outcome sound maxlen n c vs held

  -- If a deque holds a list of plain values, no more than its maximum, and the keys of all
  -- indices are taken, then any list of calls of append, appendleft, pop, popleft, peek,
  -- peekleft, len, iteration, count, [], del, remove, reverse and rotate that add none but plain
  -- values returns and raises, call by call, what the list answers, where over the maximum the
  -- far end is dropped and a change inside drops the values that are None; the deque left holds
  -- the list then.
  pub run_moves :
      (moves : List Move) (c : Cache h) (vs : List Value)
      → every is_safe moves ≡ true
      → Held sound maxlen c vs
      → (c' : Cache h) × (run (move_step h maxlen) moves c
          ≡ ((run (move_answer h maxlen) moves vs).0, c'))
        × Held sound maxlen c' (run (move_answer h maxlen) moves vs).1
  unfolding run
  run_moves [] c vs safe held = (c, refl, held)
  run_moves (move ∷ moves) c vs safe held =
      let (c₁, e₁, held₁) = outcome move c vs (ground arith) held in
      let (c₂, e₂, held₂) =
        run_moves moves c₁ (move_answer h maxlen move vs).1 (ground arith) held₁ in
      (c₂, rw (e₁, e₂), held₂)
