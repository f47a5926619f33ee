-- ===== src/Cache/Listing.antt =====
-- `iterkeys`, `peekitem`, `values`, `items`, `stats` and `volume`: what there is in the cache.
pub mod Ordered
use diskcache_rs.Base.{
  ℕ, String, Bool, true, false, not, Option, none, some, List, [], ◌∷◌, reverse, if◌then◌else◌,
}
use diskcache_rs.Cache.Read.{Reply, part, get_value, keys}
use diskcache_rs.Cache.State.{Cache, ask}
use diskcache_rs.Dict
use diskcache_rs.Dict.{Dict}
use diskcache_rs.Exec.{Exec, key_error, pure, raise, gets, attempt, ◌>>=◌}
use diskcache_rs.Host.{Host}
use diskcache_rs.Text.Order.{str_leb}
use diskcache_rs.Value.{Value, null}

unfoldable pub insert : String → List String → List String
insert k [] = k ∷ []
insert k (j ∷ ks) = let rest = insert k ks in if str_leb k j then k ∷ j ∷ ks else j ∷ rest

unfoldable pub sorted : List String → List String
unfolding insert
sorted [] = []
sorted (k ∷ ks) = insert k (sorted ks)

-- `ks[0]` or `ks[-1]` of a list that is not empty
unfoldable pub first_or_last : Bool → List String → Option String
first_or_last last [] = none
first_or_last false (k ∷ ks) = some k
first_or_last true (k ∷ ks) = elim (first_or_last true ks) [ none ↦ some k | some j ↦ some j ]

module _ (h : Host) where
  unfoldable pub iterkeys : Bool → Exec (Cache h) (List String)
  unfolding sorted
  iterkeys backwards = do ks ← keys h; pure (if backwards then reverse (sorted ks) else sorted ks)

  -- `reversed(self)`
  unfoldable pub reversed : Exec (Cache h) (List String)
  unfolding iterkeys
  reversed = iterkeys true

  -- There is no index of the tags.
  unfoldable pub create_tag_index : Exec (Cache h) (Unit {0})
  create_tag_index = pure tt

  unfoldable pub drop_tag_index : Exec (Cache h) (Unit {0})
  drop_tag_index = pure tt

  -- the value of a key with what was asked for
  unfoldable pub peek_reply : String → Bool → Bool → Exec (Cache h) (String × Reply)
  peek_reply key expire_time tag = do
    value ← get_value h key null
    gets λ c. (
      key,
      record {
        value = value;
        expire_time = part expire_time (Dict.get c.expire_times key);
        tag = part tag (Dict.get c.tags key);
      },
    )

  -- the reply for the key that was chosen, if there is one
  unfoldable pub peek_chosen : Option String → Bool → Bool → Exec (Cache h) (String × Reply)
  peek_chosen none expire_time tag = raise (key_error "cache is empty")
  peek_chosen (some key) expire_time tag = peek_reply key expire_time tag

  unfoldable pub peekitem : Bool → Bool → Bool → Exec (Cache h) (String × Reply)
  unfolding sorted first_or_last peek_chosen
  peekitem last expire_time tag = do
    ks ← keys h
    peek_chosen (first_or_last last (sorted ks)) expire_time tag

  unfoldable pub items_of : List String → Exec (Cache h) (List (String × Value))
  items_of [] = pure []
  items_of (key ∷ ks) = do
    value ← get_value h key null
    rest ← items_of ks
    pure ((key, value) ∷ rest)

  unfoldable pub items : Exec (Cache h) (List (String × Value))
  unfolding items_of
  items = do ks ← keys h; items_of ks

  unfoldable pub values_of : List String → Exec (Cache h) (List Value)
  values_of [] = pure []
  values_of (key ∷ ks) = do value ← get_value h key null; rest ← values_of ks; pure (value ∷ rest)

  unfoldable pub values : Exec (Cache h) (List Value)
  unfolding values_of
  values = do ks ← keys h; values_of ks

  unfoldable pub volume : Exec (Cache h) ℕ
  volume = attempt (ask h.size) (pure 0)

-- `rust_stats.get(name, 0)`
unfoldable pub stat : Dict ℕ → String → ℕ
stat d name = elim (Dict.get d name) [ none ↦ 0 | some n ↦ n ]

-- the names of the statistics, with those of the extension module
unfoldable pub renamed : Dict ℕ → Dict ℕ
unfolding stat
renamed d =
    ("hits", stat d "hits")
    ∷ ("misses", stat d "misses")
    ∷ ("sets", stat d "sets")
    ∷ ("deletes", stat d "deletes")
    ∷ ("evictions", stat d "evictions")
    ∷ ("size", stat d "total_size")
    ∷ ("count", stat d "entry_count")
    ∷ []

unfoldable pub stats : (h : Host) → Exec (Cache h) (Dict ℕ)
unfolding renamed
stats h = attempt (do d ← ask h.stats; pure (renamed d)) (pure [])
