-- ===== src/Witness/Openings.antt =====
-- The theorems on constructors, pickling and the order of keys, applied where every directory is
-- empty.
use Prim.Native.String.{len}
use text.Mathlib.TextLemmas.{append_cancel_left}
use mathlib.Core.List.{Perm}
use mathlib.Core.List.Perm
use diskcache_rs.Base.{
  ℕ, String, ◌≡◌, ◌≢◌, refl, true, false, none, some, List, [], ◌∷◌, arith, reverse, length,
}
use diskcache_rs.Cache.Listing
use diskcache_rs.Cache.Listing.Ordered.{IsSorted, iterkeys_lem}
use diskcache_rs.Cache.Read
use diskcache_rs.Cache.State.{Cache, ask}
use diskcache_rs.Contract.{run}
use diskcache_rs.Contract.Calls
use diskcache_rs.Contract.Calls.{step}
use diskcache_rs.Contract.Fanned.{fanout_step}
use diskcache_rs.Deque.Held.{IsHeld}
use diskcache_rs.Deque.Items.{present}
use diskcache_rs.Dict
use diskcache_rs.Exec.{ok}
use diskcache_rs.Fanout
use diskcache_rs.Fanout.{Fanout}
use diskcache_rs.Fanout.Alike.{iterkeys-Fanout, stats_lem, total}
use diskcache_rs.Fanout.Whole
use diskcache_rs.Opening.{
  Files, no_keywords, min_file_size, open_cache, open_fanout, open_shards, deque_state,
  restored_deque, shard_name,
}
use diskcache_rs.Opening.Fresh.{OpensEmpty, open_fanout-open_cache}
use diskcache_rs.Opening.Names.{AreOpened, shard_directory, open_fanout_lem}
use diskcache_rs.Opening.Restored.{restored_deque-deque_state}
use diskcache_rs.Sharded.{each}
use diskcache_rs.Text.{◌<>◌}
use diskcache_rs.Value.{is_plain}
use diskcache_rs.Witness.Contracts.{calls}
use diskcache_rs.Witness.Deques.{two_values-IsHeld}
use diskcache_rs.Witness.Reference.{reference, reference-IsSound}
use diskcache_rs.Witness.Samples.{opened, two_values, values, pair_rows}

abbrev files : Files reference
unfolding reference
files = record { cwd = "/srv"; join = λ a b. a <> ("/" <> b); opened = λ directory settings. ok [] }

files-OpensEmpty : OpensEmpty reference-IsSound files
unfolding reference reference-IsSound Dict.get
files-OpensEmpty directory settings = ([], refl, λ k. refl)

open_fanout-open_cache_example :
    (cs : Fanout reference) × (c : Cache reference) × (open_fanout reference files
        (some "/tmp/f")
        8
        no_keywords
      ≡ ok cs)
    × (open_cache reference files none min_file_size no_keywords ≡ ok c)
    × ((run (fanout_step reference len) calls cs).0 ≡ (run (step reference) calls c).0)
unfolding is_plain Calls.is_safe
open_fanout-open_cache_example =
    open_fanout-open_cache reference-IsSound files files-OpensEmpty no_keywords (some "/tmp/f") none
      8 len calls (omega arith) refl

restored_deque-deque_state_example :
    (c' : Cache reference) × (deque_state reference "/tmp/d" (some 3) two_values
      ≡ (ok ("/tmp/d", some 3, present values), two_values))
    × (restored_deque reference files ("/tmp/d", some 3, present values) ≡ ok c')
    × IsHeld reference-IsSound (some 3) c' (present values)
unfolding reference
restored_deque-deque_state_example =
    restored_deque-deque_state reference-IsSound files "/tmp/d" (some 3) two_values values []
      two_values-IsHeld refl

-- Two names joined to a directory by a slash differ as the names do.
joins_apart :
    (place : String) (i j : ℕ)
    → shard_name i ≢ shard_name j
    → shard_directory reference files place i ≢ shard_directory reference files place j
unfolding reference
joins_apart place i j apart e = apart (append_cancel_left "/" _ _ (append_cancel_left place _ _ e))

abbrev three_shards : Fanout reference
three_shards = opened [] ∷ opened [] ∷ opened [] ∷ []

three_open : open_fanout reference files (some "/tmp/f") 3 no_keywords ≡ ok three_shards
unfolding open_fanout open_shards open_cache reference
three_open = refl

open_fanout_lem_example :
    (length three_shards ≡ 3)
    × AreOpened reference files "/tmp/f" no_keywords 0 3 three_shards
    × ((i j : ℕ)
        → i ≢ j
        → shard_directory reference files "/tmp/f" i ≢ shard_directory reference files "/tmp/f" j)
open_fanout_lem_example =
    open_fanout_lem reference files (some "/tmp/f") no_keywords 3 three_shards joins_apart
      three_open

abbrev pair_state : reference.State
unfolding reference
pair_state = pair_rows

iterkeys_lem_example :
    (ks : List String) × (Listing.iterkeys reference true two_values
      ≡ (ok (reverse ks), two_values))
    × IsSorted ks
    × Perm ks (reference-IsSound.names pair_state)
unfolding reference
iterkeys_lem_example = iterkeys_lem reference-IsSound true two_values pair_state refl

-- The keys of one cache, spread over two.
abbrev keys_ab : Cache reference
keys_ab = opened (("b", []) ∷ ("a", []) ∷ [])

abbrev spread_ab : Fanout reference
spread_ab = opened (("a", []) ∷ []) ∷ opened (("b", []) ∷ []) ∷ []

keys_of_one : Read.keys reference keys_ab ≡ (ok ("b" ∷ "a" ∷ []), keys_ab)
unfolding Read.keys ask reference
keys_of_one = refl

keys_of_two : Fanout.keys reference spread_ab ≡ (ok ("a" ∷ "b" ∷ []), spread_ab)
unfolding Fanout.keys each Read.keys ask reference
keys_of_two = refl

iterkeys-Fanout_example :
    (found : List String) × (Listing.iterkeys reference false keys_ab ≡ (ok found, keys_ab))
    × (Whole.iterkeys reference false spread_ab ≡ (ok found, spread_ab))
iterkeys-Fanout_example =
    iterkeys-Fanout false keys_ab spread_ab ("b" ∷ "a" ∷ []) ("a" ∷ "b" ∷ []) keys_of_one
      keys_of_two (Perm.swap "b" "a" [])

stats_lem_example : Whole.stats reference spread_ab ≡ (
  ok (
      ("hits", total spread_ab "hits")
      ∷ ("misses", total spread_ab "misses")
      ∷ ("sets", total spread_ab "sets")
      ∷ ("deletes", total spread_ab "deletes")
      ∷ ("evictions", total spread_ab "evictions")
      ∷ ("size", total spread_ab "total_size")
      ∷ ("count", total spread_ab "entry_count")
      ∷ []),
  spread_ab,
)
stats_lem_example = stats_lem spread_ab
