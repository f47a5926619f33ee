-- ===== src/Cache/Memo/Key.antt =====
-- `_make_key`: the key of a memoized call. The printed form of an object, the name of its class and
-- SHA-256 in hexadecimal are parameters.
use diskcache_rs.Base.{String, Bool, true, false, List, [], ◌∷◌, ◌++◌}
use diskcache_rs.Dict.{Dict}
use diskcache_rs.Recipes.Keys.{Ignored, keep_args, keep_kwargs, sorted_items}
use diskcache_rs.Text.{◌<>◌}
use diskcache_rs.Value.{Value}

pub record Printer : Type 0 where
  pub repr : Value → String
  pub class_name : Value → String
  pub sha256 : String → String

module _ (print : Printer) where
  unfoldable pub printed : Bool → Value → String
  printed false v = print.repr v
  printed true v = print.class_name v <> ":" <> print.repr v

  unfoldable pub arg_parts : Bool → List Value → List String
  unfolding printed
  arg_parts typed [] = []
  arg_parts typed (v ∷ vs) = printed typed v ∷ arg_parts typed vs

  unfoldable pub kwarg_parts : Bool → Dict Value → List String
  unfolding printed
  kwarg_parts typed [] = []
  kwarg_parts typed ((k, v) ∷ kvs) = (k <> "=" <> printed typed v) ∷ kwarg_parts typed kvs

  -- `"|".join(parts)` of a list that begins with `s`
  unfoldable pub joined : String → List String → String
  joined s [] = s
  joined s (t ∷ ts) = s <> "|" <> joined t ts

  unfoldable pub make_key : String → List Value → Dict Value → Bool → Ignored → String
  unfolding arg_parts kwarg_parts joined
  make_key prefix args kwargs typed ignore =
      let kept = arg_parts typed (keep_args ignore.positions 0 args) in
      let named = kwarg_parts typed (sorted_items (keep_kwargs ignore.names kwargs)) in
      "memoize_" <> prefix <> "_" <> print.sha256 (joined prefix (kept ++ named))
