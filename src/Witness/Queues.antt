-- ===== src/Witness/Queues.antt =====
-- The theorems on queues and deques, applied to a deque of two values.
use diskcache_rs.Base.{String, ◌≡◌, refl, true, none, [], ◌∷◌, ◌++◌}
use diskcache_rs.Base.Int.{pos, ◌+ℤ◌, ◌-ℤ◌}
use diskcache_rs.Cache.Laws.{ready}
use diskcache_rs.Cache.Queue.{push, pull}
use diskcache_rs.Cache.Queue.Holds.{IsQueue}
use diskcache_rs.Cache.Queue.Push.{push_back, push_front}
use diskcache_rs.Cache.Queue.Pull.{pull_front, pull_back, entry}
use diskcache_rs.Cache.State.{Cache}
use diskcache_rs.Exec.{ok}
use diskcache_rs.Value.{null, int, text, is_plain}
use diskcache_rs.Witness.Reference.{reference, reference-IsSound}
use diskcache_rs.Witness.Samples.{two_values, values, two_values-IsQueue, two_ready}

push_back_example :
    (c' : Cache reference) × (push reference (int (pos 3)) none "back" none none two_values
      ≡ (ok (pos 0 +ℤ pos 2), c'))
    × IsQueue reference-IsSound none c' (pos 0) (values ++ int (pos 3) ∷ [])
    × ((j : String) → ready reference-IsSound c' j ≡ ready reference-IsSound two_values j)
unfolding is_plain
push_back_example =
    push_back reference-IsSound none two_values (pos 0) values two_values-IsQueue (int (pos 3)) refl
      none none (two_ready _)

push_front_example :
    (c' : Cache reference) × (push reference (int (pos 3)) none "front" none none two_values
      ≡ (ok (pos 0 -ℤ pos 1), c'))
    × IsQueue reference-IsSound none c' (pos 0 -ℤ pos 1) (int (pos 3) ∷ values)
    × ((j : String) → ready reference-IsSound c' j ≡ ready reference-IsSound two_values j)
unfolding is_plain
push_front_example =
    push_front reference-IsSound none two_values (pos 0) values two_values-IsQueue (int (pos 3))
      refl none none (two_ready _)

pull_front_example :
    (c' : Cache reference) × (pull reference none (null, null) "front" true true two_values
      ≡ (ok (entry reference-IsSound none true true two_values (pos 0) (int (pos 7))), c'))
    × IsQueue reference-IsSound none c' (pos 0 +ℤ pos 1) (text "x" ∷ [])
pull_front_example =
    pull_front reference-IsSound none true true two_values (pos 0) (text "x" ∷ []) (null, null)
      (int (pos 7)) two_values-IsQueue

pull_back_example :
    (c' : Cache reference) × (pull reference none (null, null) "back" true true two_values
      ≡ (ok (entry reference-IsSound none true true two_values (pos 0 +ℤ pos 1) (text "x")), c'))
    × IsQueue reference-IsSound none c' (pos 0) (int (pos 7) ∷ [])
pull_back_example =
    pull_back reference-IsSound none true true two_values (pos 0) (int (pos 7) ∷ []) (null, null)
      (text "x") two_values-IsQueue
