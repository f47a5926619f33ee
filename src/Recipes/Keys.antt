-- ===== src/Recipes/Keys.antt =====
-- The function `args_to_key`: a tuple of objects made from the arguments of a call. The class of an
-- object, as an object, is a parameter.
pub mod Clash
use diskcache_rs.Base.{
  ℕ, zero, suc, ◌+◌, String, Bool, true, false, ◌||◌, List, [], ◌∷◌, ◌++◌, map, str_eq, ◌==◌,
  if◌then◌else◌,
}
use diskcache_rs.Text.Order.{str_leb}
use diskcache_rs.Dict.{Dict}
use diskcache_rs.Value.{Value, text}

-- `ignore`: positions and names
pub record Ignored : Type 0 where
  pub positions : List ℕ
  pub names : List String

unfoldable pub has_position : List ℕ → ℕ → Bool
has_position [] i = false
has_position (j ∷ js) i = i == j || has_position js i

unfoldable pub has_name : List String → String → Bool
has_name [] k = false
has_name (j ∷ js) k = str_eq k j || has_name js k

-- the positional arguments from the position `i` on that are not ignored
unfoldable pub keep_args : List ℕ → ℕ → List Value → List Value
unfolding has_position
keep_args ignored i [] = []
keep_args ignored i (v ∷ vs) =
    let rest = keep_args ignored (i + 1) vs in if has_position ignored i then rest else v ∷ rest

unfoldable pub keep_kwargs : List String → Dict Value → Dict Value
unfolding has_name
keep_kwargs ignored [] = []
keep_kwargs ignored ((k, v) ∷ kvs) =
    let rest = keep_kwargs ignored kvs in if has_name ignored k then rest else (k, v) ∷ rest

-- `sorted(kwargs.items())`; no two of the names are the same
unfoldable pub insert_item : String × Value → Dict Value → Dict Value
insert_item (k, v) [] = (k, v) ∷ []
insert_item (k, v) ((j, w) ∷ kvs) =
    let rest = insert_item (k, v) kvs in
    if str_leb k j then (k, v) ∷ (j, w) ∷ kvs else (j, w) ∷ rest

unfoldable pub sorted_items : Dict Value → Dict Value
unfolding insert_item
sorted_items [] = []
sorted_items (item ∷ items) = insert_item item (sorted_items items)

-- `for item in sorted_items: key += item`
unfoldable pub spelled : Dict Value → List Value
spelled [] = []
spelled ((k, v) ∷ kvs) = text k ∷ v ∷ spelled kvs

-- the part of the key that `typed` adds
unfoldable pub classes : (Value → Value) → Bool → List Value → Dict Value → List Value
classes class_of false args kwargs = []
classes class_of true args kwargs =
    map class_of args ++ map (λ item. class_of item.1) (sorted_items kwargs)

unfoldable pub args_to_key :
    (Value → Value) → List Value → List Value → Dict Value → Bool → Ignored → List Value
unfolding keep_args keep_kwargs sorted_items spelled classes
args_to_key class_of base args kwargs typed ignore =
    let kept = keep_args ignore.positions 0 args in
    let named = keep_kwargs ignore.names kwargs in
    base ++ kept ++ spelled (sorted_items named) ++ classes class_of typed kept named
