-- ===== src/Lib.antt =====
-- The library diskcache_rs (python/diskcache_rs): a persistent key-value cache over a compiled
-- extension module, with queues, deques and other containers built on it.
--
-- Parts and files:
-- - Base, Exec, Dict, Text, Value: numbers, lists and texts; exceptions with state (`Exec S A` is a
--   function from the state to a result and a state, where a raised exception keeps the changes made
--   before it); Python dicts in insertion order; numerals; the Python objects a cache stores.
-- - Host: the parameter for what is called but not implemented here: the extension module's
--   `PyCache`, pickle, JSON, the clock, `==` and `int()`. Host/Sound names what the code relies on:
--   rows of bytes by key, no eviction between two calls, and pickle reads back what it wrote.
-- - Cache: the class `Cache` of python/diskcache_rs/cache.py. State holds `_cache`, `_expire_times`, `_tags` and the
--   transaction depth; Codec `_serialize_value` and `_auto_deserialize`; Write `set` and `set_many`;
--   Read `get`, `exists`, `in`, `[]`, `keys`, `len`, `read`; Remove `delete`, `pop`, `clear`,
--   `expire`, `evict`, `cull`, `vacuum`, `close`; Update `add`, `incr`, `decr`, `touch`; Listing
--   `iterkeys`, `peekitem`, `items`, `values`, `stats`, `volume` (Listing/Ordered the order of the keys); Memo `memoize` (Memo/Key its key), `transact`;
--   Check `check`, Settings `reset` and the store and fetch of `_DiskProxy`; Queue
--   `push`, `pull`, `peek`. View is the abstract map from keys to values; Laws says how a write
--   and an erasure change it; Queue/Holds relates a cache to the list of values it holds as a queue.
-- - Deque: the class `Deque` of python/diskcache_rs/cache.py over the queue without prefix; Compare has its
--   comparisons with other values, Moves its calls as data and what they do to a list, Held what a
--   deque keeps between calls, AtEnds and Inside each call, Trace a list of calls.
-- - Sharded: a list of objects and the hash of a key, which FanoutCache and FastFanoutCache share.
-- - Fanout: the class `FanoutCache` of cache.py: a list of caches and the hash of a key. Refine reads
--   it as one map; Whole has the methods on all caches, Clear is on `clear`, Alike on keys and `stats`.
-- - Contract: the calls of a class that is used as a map, as data, and a map that answers them. Store is
--   on `Cache`, Routed on a list of objects with a hash, Fanned on `FanoutCache`, Quick on `FastCache` and
--   `FastFanoutCache`.
-- - Opening: the constructors of `Cache`, `FanoutCache`, `Deque` and `Index`, and what pickle keeps of them;
--   the file system and the constructor of `PyCache` are the parameter `Files`. Names is on the directories
--   of the shards, Fresh on caches where there is nothing, Restored on a deque that was pickled.
-- - Index: the class `Index` of cache.py; its keys are texts already.
-- - Recipes: python/diskcache_rs/recipes.py. Mutex is `Lock`, Reentrant is `RLock`, Semaphore is `BoundedSemaphore`; the
--   Safety modules have the step relations of users whose turns interleave; for `Lock`, the test and the
--   write of `Cache.add` are two steps, and Mutex/Race is on users who are between them together.
--   `acquire` itself, which Barrier uses, is a run of one user alone. It has fuel, the
--   number of its turns, since whether it ends depends on the other users; on a lock that is free, or a
--   semaphore with a permit left, one turn is enough. Average is `Averager`, Keys `args_to_key`,
--   Throttle `throttle`, Barrier `barrier` with `Lock`, Stampede `memoize_stampede`, where Turns has the step
--   relation of calls, threads and marks that go; the loop of
--   `throttle` has its number of turns as fuel, and what `sleep_func` does as a parameter; two turns are
--   enough, one before and one after the sleep.
-- - Pickled: the class `PickleCache` of python/diskcache_rs/pickle_cache.py; Pickled/Backend is the parameter for the
--   object of the extension module, and what is relied on: no entry expires between two calls.
-- - RustPickle: python/diskcache_rs/rust_pickle.py, with the bridge of the extension module as a parameter.
-- - Fast: `FastCache` and (Shards) `FastFanoutCache` of python/diskcache_rs/fast_cache.py over a `PickleCache`;
--   Lifetime is on the time to live, Routing reads the caches as one map, Open has the constructors.
-- - Disk: `Disk` and (Json) `JSONDisk` of python/diskcache_rs/disk.py.
-- - Django: `DjangoCache` of python/diskcache_rs/djangocache.py over a `Cache`; Backend is the parameter for Django's base
--   class.
-- - Witness: a reference platform that fulfils Host/Sound, sample caches, and runs on them.
--
-- Numbers and times: integers are unbounded, as Python's are; times are microseconds, and seconds are
-- taken where the code takes `int(...)`. Decimal numerals have fuel one above the
-- number, which is enough; the `acquire` loops have their number of turns (see Recipes); the pickle
-- format of Witness has fuel for its nesting.
--
-- Not modelled: threads within a method and the transaction lock (a method is one step, but for `add`
-- within `Lock.acquire`, whose test and write are two; a thread of `memoize_stampede` is a step of its own), reading and writing files (`filename`, `hash` and `remove` of
-- `Disk`, the directory in `check`), which values pickle refuses (that of an `other` value may raise), the
-- code of the extension module (src), float arithmetic (a parameter of `Averager`, exact fractions in
-- `throttle`), and what a destructor or `repr` does.
pub mod Base
pub mod Exec
pub mod Dict
pub mod Text
pub mod Value
pub mod Host
pub mod Cache
pub mod Deque
pub mod Sharded
pub mod Fanout
pub mod Index
pub mod Recipes
pub mod Pickled
pub mod RustPickle
pub mod Fast
pub mod Disk
pub mod Contract
pub mod Opening
pub mod Django
pub mod Witness
