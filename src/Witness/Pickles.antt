-- ===== src/Witness/Pickles.antt =====
-- The theorems on `PickleCache`, `FastCache` and `FastFanoutCache`, over a dict of rows.
use diskcache_rs.Base.{
  ℕ, ◌+◌, ◌*◌, ◌<◌, ◌≤◌, String, ◌≡◌, refl, none, [], ◌∷◌, str_eq, is_some, if◌then◌else◌, length,
  arith,
}
use diskcache_rs.Base.Int.{pos}
use diskcache_rs.Cache.Write.{second}
use diskcache_rs.Dict
use diskcache_rs.Dict.{Dict, get-put, get-remove}
use diskcache_rs.Exec.{ok, value_error}
use diskcache_rs.Fast
use diskcache_rs.Fast.{FastCache}
use diskcache_rs.Fast.Lifetime.{ttl_bounds}
use diskcache_rs.Fast.Shards.{FastFanout}
use diskcache_rs.Pickled
use diskcache_rs.Pickled.Backend.{Pickles, IsKept}
use diskcache_rs.Pickled.Laws.{get_corrupt}
use diskcache_rs.Value.{Value, int, Bytes}
use diskcache_rs.Witness.Reference.{reference, reference-IsSound, by_row}

abbrev pub pickles : Pickles
pickles = record {
  State = Dict Bytes;
  set_pickle = λ k d t s. (ok tt, Dict.put s k d);
  get_pickle = λ k s. (ok (Dict.get s k), s);
  delete_pickle = λ k s. (ok (is_some (Dict.get s k)), Dict.remove s k);
  exists_pickle = λ k s. (ok (is_some (Dict.get s k)), s);
  keys_pickle = λ s. (ok (Dict.keys s), s);
  clear_pickle = λ s. (ok tt, []);
  stats_pickle = λ s. (ok (("entries", length s) ∷ []), s);
  expire_pickle = λ k t s. (ok (is_some (Dict.get s k)), s);
  ttl_pickle = λ k s. (ok none, s);
}

abbrev pub kept : IsKept pickles
kept = record {
  live = by_row;
  set_ok = λ s k d. (Dict.put s k d, refl, λ j. get-put s k j d);
  get_ok = λ s k. (s, refl, λ j. refl);
  exists_ok = λ s k. (s, refl, λ j. refl);
  delete_ok = λ s k. (is_some (Dict.get s k), Dict.remove s k, refl, λ p. p, λ j. get-remove s k j);
}

abbrev stored : Value → Bytes
stored v = reference-IsSound.pickled v

abbrev full : Dict Bytes
full = ("a", stored (int (pos 5))) ∷ ("bad", []) ∷ []

abbrev fast : FastCache pickles
fast = record { rust = full; reads = 0 }

abbrev two : FastFanout pickles
two = fast ∷ fast ∷ []

abbrev first_only : String → ℕ
first_only k = if str_eq k "a" then 4 else 7

get_corrupt_example :
    (s' : Dict Bytes) × (Pickled.get reference pickles "bad" (int (pos 1)) full
      ≡ (ok (int (pos 1)), s'))
    × ((j : String) → by_row s' j ≡ (if str_eq "bad" j then none else by_row full j))
unfolding reference Dict.get
get_corrupt_example =
    get_corrupt reference-IsSound pickles kept "bad" (int (pos 1)) full [] value_error refl refl

ttl_bounds_example :
    (n : ℕ) × ((Fast.ttl_of reference pickles (pos 1700000012345678) fast).0 ≡ ok (pos n))
    × (reference.clock 1 + n * second ≤ 1700000012345678)
    × (1700000012345678 < reference.clock 1 + n * second + second)
unfolding reference
ttl_bounds_example = ttl_bounds reference pickles fast 1700000012345678 (omega arith) (omega arith)
