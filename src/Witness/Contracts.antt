-- ===== src/Witness/Contracts.antt =====
-- The theorems on lists of calls, applied to caches that start with nothing in them.
use Prim.Native.String.{len}
use diskcache_rs.Base.{
  ℕ, zero, suc, ◌<◌, ◌%◌, String, ◌≡◌, refl, Option, none, some, List, [], ◌∷◌, arith, Bool-cases,
  inl, inr,
}
use diskcache_rs.Base.Int.{pos}
use diskcache_rs.Cache.Laws.{ready}
use diskcache_rs.Cache.State.{Cache}
use diskcache_rs.Cache.View.{view, row, decoded}
use diskcache_rs.Contract.{run, perform}
use diskcache_rs.Contract.Calls
use diskcache_rs.Contract.Calls.{Call, key_of, answer, step}
use diskcache_rs.Contract.Fanned.{fanout_step, Spreads, fanout-Cache}
use diskcache_rs.Contract.Store.{Represents, trace}
use diskcache_rs.Dict
use diskcache_rs.Fanout.{Fanout}
use diskcache_rs.Sharded.{shard_of}
use diskcache_rs.Sharded.Places.{home, cache_at}
use diskcache_rs.Value.{Value, int, text, is_plain}
use diskcache_rs.Witness.Reference.{reference, reference-IsSound, takes}
use diskcache_rs.Witness.Samples.{empty}

abbrev pub nothing : String → Option Value
nothing k = none

pub empty-Entry : Represents reference-IsSound takes empty nothing
unfolding view row decoded ready reference-IsSound Dict.get is_plain
empty-Entry k = elim (Bool-cases (takes k)) [
  | inl good ↦ record { reads_as = rw (good); present = rw (good); writable = refl; plain = refl }
  | inr bad ↦ record { reads_as = rw (bad); present = rw (bad); writable = refl; plain = refl }
]

abbrev pub calls : List Call
calls =
    Call.set "a" (text "x") none (some "t")
    ∷ Call.add "a" (text "y") none none
    ∷ Call.incr "n" (pos 2) (some (pos 5))
    ∷ Call.get_item "n"
    ∷ Call.delete "a"
    ∷ Call.pop "a" (int (pos 0))
    ∷ []

trace_example :
    (c' : Cache reference) × (run (step reference) calls empty
      ≡ ((run (perform key_of (answer reference takes)) calls nothing).0, c'))
    × Represents reference-IsSound takes c'
        (run (perform key_of (answer reference takes)) calls nothing).1
unfolding is_plain Calls.is_safe
trace_example = trace reference-IsSound takes calls nothing empty refl empty-Entry

abbrev two_caches : Fanout reference
two_caches = empty ∷ empty ∷ []

two_homes : (i : ℕ) → i < 2 → cache_at i two_caches ≡ some empty
unfolding cache_at
two_homes zero lt = refl
two_homes (suc zero) lt = refl
two_homes (suc (suc i)) lt = absurd (omega arith)

two_caches-Spreads : Spreads reference-IsSound takes len two_caches nothing
unfolding home shard_of
two_caches-Spreads k = (empty, two_homes (len k % 2) (omega arith), empty-Entry k)

fanout-Cache_example :
    (run (fanout_step reference len) calls two_caches).0 ≡ (run (step reference) calls empty).0
unfolding is_plain Calls.is_safe
fanout-Cache_example =
    fanout-Cache reference-IsSound takes len calls nothing two_caches empty refl two_caches-Spreads
      empty-Entry
