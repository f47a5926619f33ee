-- ===== src/Witness/Fanouts.antt =====
-- The theorems on fanout caches, applied to two caches with the length of a key as its hash.
use Prim.Native.String.{len}
use diskcache_rs.Base.{◌≡◌, refl, true, [], ◌∷◌}
use diskcache_rs.Cache.Laws.{ready}
use diskcache_rs.Fanout.{Fanout}
use diskcache_rs.Sharded.{shard_of}
use diskcache_rs.Sharded.Places.{home, cache_at}
use diskcache_rs.Fanout.Refine.{takes}
use diskcache_rs.Witness.Reference.{reference, reference-IsSound}
use diskcache_rs.Witness.Samples.{empty, two_values}

abbrev pair_of_caches : Fanout reference
pair_of_caches = two_values ∷ empty ∷ []

pair_takes : takes reference-IsSound len pair_of_caches "__queue__1" ≡ true
unfolding takes home cache_at shard_of ready reference-IsSound
pair_takes = refl
