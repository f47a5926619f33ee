-- ===== src/Host/Defs.antt =====
-- The platform as a parameter of the model: operations only, their laws are in Sound.
use diskcache_rs.Base.{ℕ, String, Bool, Option, List}
use diskcache_rs.Base.Int.{ℤ}
use diskcache_rs.Dict.{Dict}
use diskcache_rs.Exec.{Result}
use diskcache_rs.Value.{Value, Bytes}

pub record Host : Type 1 where
  -- the state of a `PyCache`, with its methods; a read does not change what is stored
  pub State : Type 0
  pub get : State → String → Result (Option Bytes)
  pub set : State → String → Bytes → Option ℕ → List String → Result (Unit {0}) × State
  pub set_many : State → List (String × Bytes) → Option ℕ → List String → Result (Unit {0}) × State
  pub delete : State → String → Result Bool × State
  pub exists : State → String → Result Bool
  pub keys : State → Result (List String)
  pub clear : State → Result (Unit {0}) × State
  pub stats : State → Result (Dict ℕ)
  pub size : State → Result ℕ
  pub vacuum : State → Result (Unit {0}) × State
  -- `pickle.dumps`, `pickle.loads`, `json.loads`, `bytes.decode("utf-8")`
  pub dumps : Value → Result Bytes
  pub loads : Bytes → Result Value
  pub json_loads : String → Result Value
  pub decode : Bytes → Result String
  -- `a == b`
  pub equal : Value → Value → Bool
  -- `int()` of an object that is no integer
  pub parse_int : Value → Result ℤ
  -- the readings of `time.time()` in turn, in microseconds
  pub clock : ℕ → ℕ
