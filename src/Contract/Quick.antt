-- ===== src/Contract/Quick.antt =====
-- The calls that `FastCache`, `FastFanoutCache` and `Cache` share, as a method and its arguments.
pub mod Entry
pub mod Agree
use mathlib.Core.Option
use diskcache_rs.Base.{
  ℕ, String, ◌≡◌, refl, sym, ◌∙◌, Bool, true, false, ◌&&◌, not, Option, none, some, is_some, List,
  arith, str_eq, eq_refl, if◌then◌else◌, Bool-cases, inl, inr,
}
use diskcache_rs.Cache.State.{Cache}
use diskcache_rs.Cache.View.{get_or}
use diskcache_rs.Contract.{Acts, every, run, perform, run_lem}
use diskcache_rs.Contract.Calls.{
  Call, Answer, flag, found, key_of, is_safe, as_answer, step, answer, put_if,
}
use diskcache_rs.Contract.Routed.{route_answer, routed, AtHome}
use diskcache_rs.Contract.Store.{Represents, Cache-Acts}
use diskcache_rs.Exec.{Exec, Result, ok}
use diskcache_rs.Fast
use diskcache_rs.Fast.{FastCache}
use diskcache_rs.Fast.Laws.{entry, Becomes, set_lem, get_live, get_absent, exists_lem, delete_lem}
use diskcache_rs.Fast.Shards
use diskcache_rs.Fast.Shards.{FastFanout}
use diskcache_rs.Host.{Host}
use diskcache_rs.Host.Sound.{IsSound}
use diskcache_rs.Pickled.Backend.{Pickles, IsKept}
use diskcache_rs.Sharded.{route}
use diskcache_rs.Value.{Value, null, is_plain, is_null}

pub data Basic : Type 0 where
  set : String → Value → Basic
  add : String → Value → Basic
  get : String → Value → Basic
  get_item : String → Basic
  contains : String → Basic
  pop : String → Value → Basic

-- the call of a `Cache`
unfoldable pub as_call : Basic → Call
as_call (set k v) = Call.set k v none none
as_call (add k v) = Call.add k v none none
as_call (get k d) = Call.get k d
as_call (get_item k) = Call.get_item k
as_call (contains k) = Call.contains k
as_call (pop k d) = Call.pop k d

-- the call of a `FastCache`
unfoldable pub fast_step : (h : Host) (x : Pickles) → Basic → Exec (FastCache x) Answer
fast_step h x (set k v) = as_answer flag (Fast.set h x k v none)
fast_step h x (add k v) = as_answer flag (Fast.add h x k v none)
fast_step h x (get k d) = as_answer found (Fast.get_value h x k d)
fast_step h x (get_item k) = as_answer found (Fast.get_item h x k)
fast_step h x (contains k) = as_answer flag (Fast.exists h x k)
fast_step h x (pop k d) = as_answer found (Fast.pop h x k d)

-- The calls that `FastFanoutCache` has too.
pub data Common : Type 0 where
  set : String → Value → Common
  get : String → Value → Common
  get_item : String → Common
  contains : String → Common

unfoldable pub as_basic : Common → Basic
as_basic (set k v) = Basic.set k v
as_basic (get k d) = Basic.get k d
as_basic (get_item k) = Basic.get_item k
as_basic (contains k) = Basic.contains k

-- the call of a `FastFanoutCache`
unfoldable pub fast_fanout_step :
    (h : Host) (x : Pickles) → (String → ℕ) → Common → Exec (FastFanout x) Answer
fast_fanout_step h x hash (set k v) = as_answer flag (Shards.set h x hash k v none)
fast_fanout_step h x hash (get k d) = as_answer found (Shards.get_value h x hash k d)
fast_fanout_step h x hash (get_item k) = as_answer found (Shards.get_item h x hash k)
fast_fanout_step h x hash (contains k) = as_answer flag (Shards.exists h x hash k)
