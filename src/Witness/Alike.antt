-- ===== src/Witness/Alike.antt =====
-- The theorems on the calls that fast caches and caches share, applied to empty ones.
use Prim.Native.String.{len}
use diskcache_rs.Base.{ℕ, zero, suc, ◌<◌, ◌%◌, String, ◌≡◌, refl, none, some, List, [], ◌∷◌, arith}
use diskcache_rs.Base.Int.{pos}
use diskcache_rs.Contract.{run, perform}
use diskcache_rs.Contract.Calls
use diskcache_rs.Contract.Calls.{step}
use diskcache_rs.Contract.Quick.{Basic, Common, as_call, as_basic, fast_step, fast_fanout_step}
use diskcache_rs.Contract.Quick.Agree.{
  fast-Cache, fast_fanout-trace, common_key, common_answer, AtFast,
}
use diskcache_rs.Contract.Quick.Entry.{FastEntry}
use diskcache_rs.Dict
use diskcache_rs.Fast.{FastCache}
use diskcache_rs.Fast.Shards.{FastFanout}
use diskcache_rs.Sharded.{shard_of}
use diskcache_rs.Sharded.Places.{home, cache_at}
use diskcache_rs.Value.{int, text, is_plain}
use diskcache_rs.Witness.Contracts.{nothing, empty-Entry}
use diskcache_rs.Witness.Pickles.{pickles, kept}
use diskcache_rs.Witness.Reference.{reference, reference-IsSound, takes}
use diskcache_rs.Witness.Samples.{empty}

abbrev fresh : FastCache pickles
fresh = record { rust = []; reads = 0 }

fresh-FastEntry : (k : String) → FastEntry reference-IsSound pickles kept fresh k none
unfolding Dict.get is_plain
fresh-FastEntry k = record { bytes_are = refl; plain = refl }

abbrev basics : List Basic
basics =
    Basic.set "a" (text "x")
    ∷ Basic.add "a" (text "y")
    ∷ Basic.get_item "a"
    ∷ Basic.pop "b" (int (pos 1))
    ∷ Basic.pop "a" (int (pos 0))
    ∷ Basic.contains "a"
    ∷ []

fast-Cache_example :
    (run (fast_step reference pickles) basics fresh).0
    ≡ (run (λ b. step reference (as_call b)) basics empty).0
unfolding is_plain Calls.is_safe Calls.key_of as_call
fast-Cache_example =
    fast-Cache reference-IsSound pickles kept takes basics nothing fresh empty refl fresh-FastEntry
      empty-Entry

abbrev two : FastFanout pickles
two = fresh ∷ fresh ∷ []

two_homes : (i : ℕ) → i < 2 → cache_at i two ≡ some fresh
unfolding cache_at
two_homes zero lt = refl
two_homes (suc zero) lt = refl
two_homes (suc (suc i)) lt = absurd (omega arith)

spread : (k : String) → AtFast reference-IsSound pickles kept takes len two k none
unfolding home shard_of
spread k = (fresh, two_homes (len k % 2) (omega arith), fresh-FastEntry k)

abbrev commons : List Common
commons =
    Common.set "a" (text "x")
    ∷ Common.get_item "a"
    ∷ Common.get "b" (int (pos 1))
    ∷ Common.contains "b"
    ∷ []

fast_fanout-trace_example :
    (cs' : FastFanout pickles) × (run (fast_fanout_step reference pickles len) commons two
      ≡ ((run (perform common_key (common_answer reference takes)) commons nothing).0, cs'))
    × ((k : String)
        → AtFast reference-IsSound pickles kept takes len cs' k
            ((run (perform common_key (common_answer reference takes)) commons nothing).1 k))
unfolding is_plain Calls.is_safe Calls.key_of as_call as_basic
fast_fanout-trace_example =
    fast_fanout-trace reference-IsSound pickles kept takes len commons nothing two refl spread
