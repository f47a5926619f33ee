-- ===== src/Witness/Edits.antt =====
-- The theorems on edits of a deque, on `touch` and on `evict`, applied to small caches.
use diskcache_rs.Base.{ℕ, String, ◌≡◌, refl, true, none, some, [], ◌∷◌, if◌then◌else◌}
use diskcache_rs.Base.Int.{pos, negsuc, ◌+ℤ◌}
use diskcache_rs.Cache.Queue.{item_key}
use diskcache_rs.Text.{str}
use diskcache_rs.Cache.Laws.{ready, deadline}
use diskcache_rs.Cache.Laws.Evict.{evict_lem, is_tagged}
use diskcache_rs.Cache.Laws.Picked.{distinct}
use diskcache_rs.Cache.Laws.Touch.{touch_lem}
use diskcache_rs.Cache.Remove.{evict}
use diskcache_rs.Cache.State.{Cache}
use diskcache_rs.Cache.Update.{touch}
use diskcache_rs.Cache.View.{view}
use diskcache_rs.Cache.Write.{seconds}
use diskcache_rs.Dict
use diskcache_rs.Deque
use diskcache_rs.Deque.{place, without, find}
use diskcache_rs.Deque.Edit.{replaced, set_item_lem}
use diskcache_rs.Deque.Items.{IsDeque}
use diskcache_rs.Exec.{ok}
use diskcache_rs.Value.{int, text, is_plain}
use diskcache_rs.Witness.Reference.{reference, reference-IsSound}
use diskcache_rs.Witness.Samples.{two_values, values, two_values-IsQueue}

set_item_lem_example :
    (c' : Cache reference) × (Deque.set_item reference (negsuc 0) (text "new") two_values
      ≡ (ok tt, c'))
    × IsDeque reference-IsSound c' (pos 0) (int (pos 7) ∷ text "new" ∷ [])
unfolding place is_plain replaced
set_item_lem_example =
    set_item_lem reference-IsSound two_values (pos 0) values (negsuc 0) 1 (text "new")
      two_values-IsQueue refl refl

-- One of its two entries has the tag "t".
abbrev tagged : Cache reference
tagged = record two_values { tags = ("__queue__0", "t") ∷ ("__queue__1", "u") ∷ [] }

evict_lem_example :
    (n : ℕ) × (c' : Cache reference) × (evict reference "t" tagged ≡ (ok n, c'))
    × ((j : String)
        → view reference-IsSound c' j ≡ (
            if is_tagged "t" (Dict.get tagged.tags j)
            then none
            else view reference-IsSound tagged j))
unfolding distinct Dict.get
evict_lem_example = evict_lem reference-IsSound "t" tagged refl

tagged_takes : ready reference-IsSound tagged "__queue__1" ≡ true
unfolding ready reference-IsSound
tagged_takes = refl

tagged_here : view reference-IsSound tagged "__queue__1" ≡ some (text "x")
unfolding item_key str ◌+ℤ◌ reference-IsSound view
tagged_here = two_values-IsQueue.held.1.0

touch_lem_example :
    (c' : Cache reference) × (touch reference "__queue__1" (some 5000000) tagged ≡ (ok true, c'))
    × ((j : String) → view reference-IsSound c' j ≡ view reference-IsSound tagged j)
    × (Dict.get c'.expire_times "__queue__1"
        ≡ seconds (deadline reference (some 5000000) tagged.reads))
    × (Dict.get c'.tags "__queue__1" ≡ none)
unfolding is_plain
touch_lem_example =
    touch_lem reference-IsSound "__queue__1" (some 5000000) (text "x") tagged tagged_takes
      tagged_here refl refl
