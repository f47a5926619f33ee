-- ===== src/Index.antt =====
-- The class `Index` of python/diskcache_rs/cache.py: a mapping kept in a cache. Its methods act on
-- that cache; a key is turned into a text by `str` before, so the keys here are texts.
pub mod Laws
use diskcache_rs.Base.{
  ℕ, String, Bool, true, false, not, ◌&&◌, ◌==◌, length, Option, none, some, List, [], ◌∷◌, ltb,
  if◌then◌else◌,
}
use diskcache_rs.Cache.Listing
use diskcache_rs.Dict
use diskcache_rs.Dict.{Dict}
use diskcache_rs.Cache.Memo
use diskcache_rs.Cache.Queue
use diskcache_rs.Cache.Queue.{Pulled}
use diskcache_rs.Base.Int.{ℤ}
use diskcache_rs.Cache.Read
use diskcache_rs.Cache.Remove
use diskcache_rs.Cache.State.{Cache}
use diskcache_rs.Cache.Write
use diskcache_rs.Exec.{Exec, pure, ◌>>=◌, ◌>>◌}
use diskcache_rs.Host.{Host}
use diskcache_rs.Value.{Value, null}

module _ (h : Host) where
  unfoldable pub get_item : String → Exec (Cache h) Value
  get_item key = Read.get_item h key

  unfoldable pub set_item : String → Value → Exec (Cache h) (Unit {0})
  set_item key value = do Write.set h key value none false none; pure tt

  unfoldable pub delete_item : String → Exec (Cache h) (Unit {0})
  delete_item key = Remove.delete_item h key

  unfoldable pub contains : String → Exec (Cache h) Bool
  contains key = Read.contains h key

  unfoldable pub len : Exec (Cache h) ℕ
  len = Read.len h

  -- `bool(self)`
  unfoldable pub is_nonempty : Exec (Cache h) Bool
  unfolding len
  is_nonempty = do n ← len; pure (ltb 0 n)

  unfoldable pub get : String → Value → Exec (Cache h) Value
  get key default = Read.get_value h key default

  unfoldable pub pop : String → Value → Exec (Cache h) Value
  pop key default = do r ← Remove.pop h key default false false; pure r.value

  unfoldable pub set_default : String → Value → Exec (Cache h) Value
  set_default key default = do
    found ← Read.contains h key
    if not found
        then (do Write.set h key default none false none; pure default)
        else Read.get_value h key null

  -- `update`, and the pairs given to the constructor
  unfoldable pub update : List (String × Value) → Exec (Cache h) (Unit {0})
  update [] = pure tt
  update ((k, v) ∷ pairs) = do Write.set h k v none false none; update pairs

  unfoldable pub clear : Exec (Cache h) (Unit {0})
  clear = do Remove.clear h; pure tt

  unfoldable pub peekitem : Bool → Exec (Cache h) (String × Value)
  peekitem last = do (key, r) ← Listing.peekitem h last false false; pure (key, r.value)

  unfoldable pub popitem : Bool → Exec (Cache h) (String × Value)
  unfolding peekitem
  popitem last = do (key, value) ← peekitem last; Remove.delete_item h key; pure (key, value)

  unfoldable pub push : Value → Option String → String → Exec (Cache h) ℤ
  push value prefix side = Queue.push h value prefix side none none

  unfoldable pub pull : Option String → Value × Value → String → Exec (Cache h) Pulled
  pull prefix default side = Queue.pull h prefix default side false false

  unfoldable pub close : Exec (Cache h) (Unit {0})
  close = Remove.close h

  unfoldable pub transact : {A : Type 0} → Exec (Cache h) A → Exec (Cache h) A
  unfolding Memo.transact
  transact body = Memo.transact h body

  -- the wrapper of a memoized function, which takes no expiration time here
  unfoldable pub memoized : String → Exec (Cache h) Value → Exec (Cache h) Value
  unfolding Memo.memoized
  memoized key func = Memo.memoized h key none func

  -- `with index: body`
  unfoldable pub with_index : {A : Type 0} → Exec (Cache h) A → Exec (Cache h) A
  unfolding Memo.with_cache
  with_index body = Memo.with_cache h body

  unfoldable pub keys : Exec (Cache h) (List String)
  keys = Read.keys h

  -- `reversed(self)`
  unfoldable pub reversed : Exec (Cache h) (List String)
  reversed = Listing.reversed h

  unfoldable pub values : Exec (Cache h) (List Value)
  values = Listing.values h

  unfoldable pub items : Exec (Cache h) (List (String × Value))
  items = Listing.items h

  -- the values of two dicts at the keys of the first, by `==`
  unfoldable pub agree : Dict Value → Dict Value → Bool
  agree [] e = true
  agree ((k, v) ∷ d) e =
      let rest = agree d e in elim (Dict.get e k) [ none ↦ false | some w ↦ h.equal v w && rest ]

  -- `dict(self.items()) == other`
  unfoldable pub equals : Dict Value → Exec (Cache h) Bool
  unfolding items agree
  equals other = do kvs ← items; pure (length kvs == length other && agree kvs other)

  unfoldable pub differs : Dict Value → Exec (Cache h) Bool
  unfolding equals
  differs other = do same ← equals other; pure (not same)
