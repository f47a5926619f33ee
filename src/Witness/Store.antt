-- ===== src/Witness/Store.antt =====
-- The theorems on single keys of a cache and on its encoding, applied to concrete caches.
use diskcache_rs.Base.{◌≡◌, refl, true, false, some, [], ◌∷◌}
use diskcache_rs.Base.Int.{pos}
use diskcache_rs.Cache.Codec.{auto_deserialize, serialize_value, deserialize-serialize}
use diskcache_rs.Cache.Laws.{deadline, ready, IsWrite, set_writes}
use diskcache_rs.Cache.Read.{contains}
use diskcache_rs.Cache.State.{Cache}
use diskcache_rs.Cache.View.{row, contains-has}
use diskcache_rs.Cache.Write.{seconds, set, read_file}
use diskcache_rs.Dict
use diskcache_rs.Exec.{ok, and_then}
use diskcache_rs.Value.{int, text, bytes, pair, is_plain}
use diskcache_rs.Witness.Reference.{reference, reference-IsSound}
use diskcache_rs.Witness.Samples.{empty, two_values}

deserialize-serialize_example :
    and_then
      (serialize_value reference (pair (int (pos 3)) (bytes (0 ∷ 255 ∷ []))))
      (auto_deserialize reference)
    ≡ ok (pair (int (pos 3)) (bytes (0 ∷ 255 ∷ [])))
unfolding is_plain
deserialize-serialize_example =
    deserialize-serialize reference reference-IsSound (pair (int (pos 3)) (bytes (0 ∷ 255 ∷ [])))
      refl

set_writes_example :
    (c' : Cache reference) × (set reference "a" (text "v") (some 5) false (some "t") empty
      ≡ (ok true, c'))
    × IsWrite reference-IsSound empty "a" (read_file false (text "v")) c'
    × (Dict.get c'.expire_times "a" ≡ seconds (deadline reference (some 5) 0))
    × (Dict.get c'.tags "a" ≡ some "t")
unfolding is_plain ready reference-IsSound read_file
set_writes_example =
    set_writes reference-IsSound "a" (text "v") (some 5) false (some "t") empty refl refl

contains-has_example : contains reference "__queue__1" two_values ≡ (ok true, two_values)
unfolding row reference-IsSound Dict.get
contains-has_example = contains-has reference-IsSound two_values "__queue__1"
