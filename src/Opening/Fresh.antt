-- ===== src/Opening/Fresh.antt =====
-- A fanout cache over directories in which there is nothing, and a cache over such a directory.
use native.Mathlib.Nat.{mod-lt}
use diskcache_rs.Base.{
  ℕ, zero, suc, ◌+◌, ◌<◌, ◌%◌, String, ◌≡◌, refl, ap, true, Option, none, some, List, [], ◌∷◌,
  arith, length, Bool-cases, inl, inr,
}
use diskcache_rs.Cache.State.{Cache}
use diskcache_rs.Cache.Laws.{ready}
use diskcache_rs.Cache.View.{view, row, decoded}
use diskcache_rs.Contract.{every, run}
use diskcache_rs.Contract.Calls.{Call, is_safe, step}
use diskcache_rs.Contract.Fanned.{Spreads, fanout_step, fanout-Cache}
use diskcache_rs.Contract.Store.{Represents}
use diskcache_rs.Exec.{ok}
use diskcache_rs.Fanout.{Fanout}
use diskcache_rs.Host.{Host}
use diskcache_rs.Host.Sound.{IsSound}
use diskcache_rs.Opening.{
  Files, Settings, Keywords, settings_of, open_cache, open_shards, open_fanout, shard_name,
  min_file_size, place_of,
}
use diskcache_rs.Opening.Restored.{new_cache}
use diskcache_rs.Sharded.{shard_of}
use diskcache_rs.Sharded.Every.{found}
use diskcache_rs.Sharded.Places.{home, cache_at, cache_at-lt}
use diskcache_rs.Value.{Value, is_plain}

module _ {h : Host} (sound : IsSound h) (files : Files h) where
  -- Each directory opens, and no key has a row there.
  abbrev pub OpensEmpty : Type 0
  OpensEmpty =
      (directory : String) (settings : Settings)
      → (s : h.State) × (files.opened directory settings ≡ ok s)
        × ((k : String) → sound.rows s k ≡ none)

  abbrev nothing : String → Option Value
  nothing k = none

  new-Represents :
      (s : h.State)
      → ((k : String) → sound.rows s k ≡ none)
      → Represents sound sound.accepts (new_cache sound files s) nothing
  unfolding view row decoded ready is_plain
  new-Represents s gone k = elim (Bool-cases (sound.accepts k)) [
    | inl good ↦ record {
      reads_as = rw (good, gone k);
      present = rw (good, gone k);
      writable = refl;
      plain = refl;
    }
    | inr bad ↦ record { reads_as = rw (bad); present = rw (bad); writable = refl; plain = refl }
  ]

  module _ (fresh : OpensEmpty) (kwargs : Keywords) where
    open_cache-Represents :
        (directory : Option String)
        → (c : Cache h) × (open_cache h files directory min_file_size kwargs ≡ ok c)
          × Represents sound sound.accepts c nothing
    unfolding open_cache
    open_cache-Represents directory =
        let (s, e, gone) =
          fresh (place_of h files directory "cache") (settings_of min_file_size kwargs) in
        (new_cache sound files s, rw (e), new-Represents s gone)

    -- The shards are as many as were asked for, and each of them is empty.
    shards_open :
        (directory : String) (i n : ℕ)
        → (cs : Fanout h) × (open_shards h files directory kwargs i n ≡ ok cs)
          × (length cs ≡ n)
          × ((j : ℕ) (c : Cache h)
              → cache_at j cs ≡ some c
              → Represents sound sound.accepts c nothing)
    unfolding open_shards cache_at
    shards_open directory i zero = ([], refl, refl, λ j c e. absurd (ground arith))
    shards_open directory i (suc n) =
        let (c, e, holds) = open_cache-Represents (some (files.join directory (shard_name i))) in
        let (cs, e', len, all) = shards_open directory (i + 1) n in
        (
          c ∷ cs,
          rw (e, e'),
          ap suc len,
          found {Q = λ c. Represents sound sound.accepts c nothing} c cs holds all,
        )

    shards-Spreads :
        (hash : String → ℕ) (cs : Fanout h)
        → 0 < length cs
        → ((j : ℕ) (c : Cache h)
            → cache_at j cs ≡ some c
            → Represents sound sound.accepts c nothing)
        → Spreads sound sound.accepts hash cs nothing
    unfolding home shard_of
    shards-Spreads hash cs some_ all k =
        let (c, there) = cache_at-lt (hash k % length cs) cs (mod-lt (hash k) some_) in
        (c, there, all _ c there k)

    -- If every directory opens and has no rows, then a FanoutCache of any number of shards but
    -- zero and a Cache, opened anywhere with the same keywords, answer alike any list of calls of
    -- one key that write none but plain values, whatever the hash.
    pub open_fanout-open_cache :
        (directory place : Option String) (shards : ℕ) (hash : String → ℕ) (calls : List Call)
        → 0 < shards
        → every is_safe calls ≡ true
        → (cs : Fanout h) × (c : Cache h) × (open_fanout h files directory shards kwargs ≡ ok cs)
          × (open_cache h files place min_file_size kwargs ≡ ok c)
          × ((run (fanout_step h hash) calls cs).0 ≡ (run (step h) calls c).0)
    unfolding open_fanout
    open_fanout-open_cache directory place shards hash calls some_ safe =
        let (cs, e, len, all) = shards_open (place_of h files directory "cache") 0 shards in
        let (c, e', holds) = open_cache-Represents place in
        let spread = shards-Spreads hash cs (omega (arith, len)) all in
        (cs, c, e, e', fanout-Cache sound sound.accepts hash calls nothing cs c safe spread holds)
