-- ===== src/Opening.antt =====
-- The constructors of `Cache`, `FanoutCache`, `Deque` and `Index` of python/diskcache_rs/cache.py,
-- and what pickle keeps of such objects. Where files lie and how the extension module opens a
-- directory is a parameter.
pub mod Names
pub mod Restored
pub mod Fresh
use diskcache_rs.Base.{
  ℕ, zero, suc, ◌+◌, String, Bool, false, Option, none, some, List, [], ◌∷◌, ltb, if◌then◌else◌,
}
use diskcache_rs.Base.Int.{pos}
use diskcache_rs.Cache.State.{Cache}
use diskcache_rs.Cache.View.{get_or}
use diskcache_rs.Deque
use diskcache_rs.Dict
use diskcache_rs.Dict.{Dict}
use diskcache_rs.Exec.{Exec, Result, ok, raised, and_then, pure, ◌>>=◌, ◌>>◌}
use diskcache_rs.Fanout.{Fanout}
use diskcache_rs.Host.{Host}
use diskcache_rs.Index
use diskcache_rs.Text.{str, ◌<>◌}
use diskcache_rs.Value.{Value}

-- the keyword arguments of `Cache` beyond those it names; one that is given is a number or a Boolean,
-- as the extension module wants it, and never None
pub record Keywords : Type 0 where
  pub size_limit : Option ℕ
  pub max_size : Option ℕ
  pub count_limit : Option ℕ
  pub max_entries : Option ℕ
  pub disk_write_threshold : Option ℕ
  pub use_file_locking : Option Bool

abbrev pub no_keywords : Keywords
no_keywords = record {
  size_limit = none;
  max_size = none;
  count_limit = none;
  max_entries = none;
  disk_write_threshold = none;
  use_file_locking = none;
}

-- what the extension module is told
pub record Settings : Type 0 where
  pub max_size : ℕ
  pub max_entries : ℕ
  pub disk_write_threshold : ℕ
  pub use_file_locking : Bool

unfoldable pub settings_of : ℕ → Keywords → Settings
settings_of disk_min_file_size kwargs = record {
  max_size = get_or kwargs.size_limit (get_or kwargs.max_size 1073741824);
  max_entries = get_or kwargs.count_limit (get_or kwargs.max_entries 100000);
  disk_write_threshold = get_or kwargs.disk_write_threshold disk_min_file_size;
  use_file_locking = get_or kwargs.use_file_locking false;
}

-- the working directory, the join of two parts of a path, and `PyCache(directory, …)`
pub record Files (h : Host) : Type 0 where
  pub cwd : String
  pub join : String → String → String
  pub opened : String → Settings → Result h.State

-- `f"shard_{i:03d}"`
unfoldable pub shard_name : ℕ → String
shard_name i =
    let digits = str (pos i) in
    if ltb i 10
    then "shard_00" <> digits
    else (if ltb i 100 then "shard_0" <> digits else "shard_" <> digits)

-- the default of `disk_min_file_size`
abbrev pub min_file_size : ℕ
min_file_size = 32768

-- `dict(pairs)`
unfoldable pub dict_of : List (String × Value) → Dict Value → Dict Value
dict_of [] d = d
dict_of ((k, v) ∷ pairs) d = dict_of pairs (Dict.put d k v)

module _ (h : Host) where
  -- `Deque.__getstate__`
  unfoldable pub deque_state : String → Option ℕ → Exec (Cache h) (String × Option ℕ × List Value)
  deque_state directory maxlen = do items ← Deque.all_items h; pure (directory, maxlen, items)

  -- `Index.__getstate__`
  unfoldable pub index_state : String → Exec (Cache h) (String × Dict Value)
  unfolding dict_of
  index_state directory = do pairs ← Index.items h; pure (directory, dict_of pairs [])

module _ (h : Host) (files : Files h) where
  -- a path that was given, or the one below the working directory
  abbrev pub place_of : Option String → String → String
  place_of directory name = get_or directory (files.join files.cwd name)

  -- `Cache(directory, disk_min_file_size=…, **kwargs)`
  unfoldable pub open_cache : Option String → ℕ → Keywords → Result (Cache h)
  unfolding settings_of
  open_cache directory disk_min_file_size kwargs =
      and_then (files.opened (place_of directory "cache") (settings_of disk_min_file_size kwargs))
        λ s. ok (record { rust = some s; expire_times = []; tags = []; depth = 0; reads = 0 })

  -- the loop of `FanoutCache.__init__`, from the shard `i` on
  unfoldable pub open_shards : String → Keywords → ℕ → ℕ → Result (Fanout h)
  unfolding open_cache shard_name
  open_shards directory kwargs i zero = ok []
  open_shards directory kwargs i (suc n) =
      let rest = open_shards directory kwargs (i + 1) n in
      and_then (open_cache (some (files.join directory (shard_name i))) min_file_size kwargs)
        λ c. and_then rest λ cs. ok (c ∷ cs)

  -- `FanoutCache(directory, shards, **kwargs)`
  unfoldable pub open_fanout : Option String → ℕ → Keywords → Result (Fanout h)
  unfolding open_shards
  open_fanout directory shards kwargs = open_shards (place_of directory "cache") kwargs 0 shards

  -- An object whose constructor raises is none: its result is that of the calls in the constructor.
  abbrev pub constructed : Result (Unit {0}) × Cache h → Result (Cache h)
  constructed (r, c) = and_then r (λ u. ok c)

  -- `Deque(iterable, directory, maxlen)`
  unfoldable pub open_deque : List Value → Option String → Option ℕ → Result (Cache h)
  unfolding open_cache
  open_deque iterable directory maxlen =
      and_then
        (open_cache (some (get_or directory (files.join (files.join files.cwd "cache") "deque")))
          min_file_size no_keywords)
        λ c. constructed (Deque.extend h maxlen iterable c)

  -- `Index(pairs, directory=…, **kwargs)`
  unfoldable pub open_index :
      List (String × Value) → Option String → List (String × Value) → Result (Cache h)
  unfolding open_cache
  open_index pairs directory kwargs =
      and_then
        (open_cache (some (get_or directory (files.join (files.join files.cwd "cache") "index")))
          min_file_size no_keywords)
        λ c. constructed ((do Index.update h pairs; Index.update h kwargs) c)

  -- `FanoutCache.cache`, `deque` and `index`: such an object in a directory below
  unfoldable pub named_cache : String → String → Keywords → Result (Cache h)
  unfolding open_cache
  named_cache directory name kwargs =
      open_cache (some (files.join directory name)) min_file_size kwargs

  unfoldable pub named_deque : String → String → Option ℕ → Result (Cache h)
  unfolding open_deque
  named_deque directory name maxlen = open_deque [] (some (files.join directory name)) maxlen

  unfoldable pub named_index : String → String → Result (Cache h)
  unfolding open_index
  named_index directory name = open_index [] (some (files.join directory name)) []

  -- `Cache.__setstate__` of a directory and a timeout, which the object only keeps
  unfoldable pub restored_cache : String × ℕ → Result (Cache h)
  unfolding open_cache
  restored_cache (directory, timeout) = open_cache (some directory) min_file_size no_keywords

  -- `FanoutCache.__setstate__` of a directory, the number of shards and a timeout
  unfoldable pub restored_fanout : String × ℕ × ℕ → Result (Fanout h)
  unfolding open_fanout
  restored_fanout (directory, shards, timeout) = open_fanout (some directory) shards no_keywords

  -- `Deque.__setstate__`
  unfoldable pub restored_deque : String × Option ℕ × List Value → Result (Cache h)
  unfolding open_deque
  restored_deque (directory, maxlen, items) =
      and_then (open_deque [] (some directory) maxlen)
        λ c. constructed (Deque.rebuild h maxlen items c)

  -- `Index.__setstate__`
  unfoldable pub restored_index : String × Dict Value → Result (Cache h)
  unfolding open_index
  restored_index (directory, data_) = open_index data_ (some directory) []
