-- ===== src/Witness/Deques.antt =====
-- The theorem on the calls of a deque, applied to the deque of 7 and "x" with a maximum of three.
use diskcache_rs.Base.{◌≡◌, refl, some, List, [], ◌∷◌, arith}
use diskcache_rs.Base.Int.{pos, negsuc}
use diskcache_rs.Cache.State.{Cache}
use diskcache_rs.Contract.{run}
use diskcache_rs.Deque.Held.{IsHeld}
use diskcache_rs.Deque.Moves.{Move, move_step, move_answer, is_safe}
use diskcache_rs.Deque.Rebuild.{all_plain}
use diskcache_rs.Deque.Trace.{run_moves}
use diskcache_rs.Value.{text, is_plain}
use diskcache_rs.Witness.Reference.{reference, reference-IsSound}
use diskcache_rs.Witness.Samples.{two_values, two_values-IsQueue, two_ready, values}

pub two_values-IsHeld : IsHeld reference-IsSound (some 3) two_values values
unfolding all_plain is_plain
two_values-IsHeld = record {
  front = pos 0;
  deque = two_values-IsQueue;
  fits = omega arith;
  plain = refl;
  takes = two_ready;
}

abbrev moves : List Move
moves =
    Move.append (text "y")
    ∷ Move.append_left (text "z")
    ∷ Move.rotate (negsuc 0)
    ∷ Move.pop
    ∷ Move.get_item (negsuc 0)
    ∷ Move.reverse_items
    ∷ []

run_moves_example :
    (c' : Cache reference) × (run (move_step reference (some 3)) moves two_values
      ≡ ((run (move_answer reference (some 3)) moves values).0, c'))
    × IsHeld reference-IsSound (some 3) c' (run (move_answer reference (some 3)) moves values).1
unfolding is_plain is_safe
run_moves_example =
    run_moves reference-IsSound (some 3) moves two_values values refl two_values-IsHeld
