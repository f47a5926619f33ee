-- ===== src/Recipes/Average.antt =====
-- The class `Averager`: a key of the cache holds a total and a count. The arithmetic on the total,
-- which starts as the float 0.0, and the unpacking of an object that is no tuple of two, are
-- parameters.
pub mod Mean
use diskcache_rs.Base.{ℕ, String, Bool, false, Option, if◌then◌else◌}
use diskcache_rs.Base.Int.{pos, ◌+ℤ◌, eqb_ℤ}
use diskcache_rs.Cache.Memo.{transact}
use diskcache_rs.Cache.Read.{get_value}
use diskcache_rs.Cache.Remove
use diskcache_rs.Cache.State.{Cache}
use diskcache_rs.Cache.Write.{set}
use diskcache_rs.Exec.{Exec, Result, ok, pure, lift, ◌>>=◌, ◌>>◌}
use diskcache_rs.Host.{Host}
use diskcache_rs.Recipes.Mutex.{Params}
use diskcache_rs.Value.{Value, null, int, pair}

pub record Numbers : Type 0 where
  -- `0.0`, `a + b` and `a / b`
  pub zero : Value
  pub plus : Value → Value → Result Value
  pub divide : Value → Value → Result Value
  -- `a, b = v`
  pub unpack : Value → Result (Value × Value)

module _ (h : Host) (num : Numbers) where
  -- `total, count = v`
  unfoldable pub two_of : Value → Result (Value × Value)
  two_of (pair a b) = ok (a, b)
  two_of v = num.unpack v

  -- `count + 1`
  unfoldable pub one_more : Value → Result Value
  one_more (int i) = ok (int (i +ℤ pos 1))
  one_more v = num.plus v (int (pos 1))

  -- `count == 0`
  unfoldable pub is_zero : Value → Bool
  is_zero (int i) = eqb_ℤ i (pos 0)
  is_zero v = h.equal v (int (pos 0))

  -- `None if count == 0 else total / count`
  unfoldable pub mean : Value × Value → Result Value
  unfolding is_zero
  mean (total, count) = if is_zero count then ok null else num.divide total count

  abbrev nothing : Value
  nothing = pair num.zero (int (pos 0))

  module _ (p : Params) where
    unfoldable pub add : Value → Exec (Cache h) (Unit {0})
    unfolding two_of one_more
    add value = transact h (do
      found ← get_value h p.key nothing
      both ← lift (two_of found)
      total ← lift (num.plus both.0 value)
      count ← lift (one_more both.1)
      set h p.key (pair total count) p.expire false p.tag
      pure tt)

    unfoldable pub get : Exec (Cache h) Value
    unfolding two_of mean
    get = do found ← get_value h p.key nothing; both ← lift (two_of found); lift (mean both)

    unfoldable pub pop : Exec (Cache h) Value
    unfolding two_of mean
    pop = do
      r ← Remove.pop h p.key nothing false false
      both ← lift (two_of r.value)
      lift (mean both)
