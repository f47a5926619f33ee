-- ===== src/Recipes/Keys/Clash.antt =====
-- Calls whose keys are the same.
use diskcache_rs.Base.{
  ℕ, zero, suc, ◌+◌, ◌≡◌, refl, ◌∙◌, ap, Bool, true, false, List, [], ◌∷◌, ◌++◌, arith,
}
use mathlib.Core.List.{append_assoc, append-nil}
use diskcache_rs.Dict.{Dict}
use diskcache_rs.Recipes.Keys.{
  Ignored, has_position, has_name, keep_args, keep_kwargs, sorted_items, spelled, args_to_key,
  classes,
}
use diskcache_rs.Value.{Value}

abbrev pub none_ignored : Ignored
none_ignored = record { positions = []; names = [] }

keep_all : (vs : List Value) (i : ℕ) → keep_args [] i vs ≡ vs
unfolding keep_args has_position
keep_all [] i = refl
keep_all (v ∷ vs) i = ap (λ l. v ∷ l) (keep_all vs (i + 1))

keep_named : (kvs : Dict Value) → keep_kwargs [] kvs ≡ kvs
unfolding keep_kwargs has_name
keep_named [] = refl
keep_named ((k, v) ∷ kvs) = ap (λ l. (k, v) ∷ l) (keep_named kvs)

-- Keyword arguments give the same key as their names and values, sorted by name, passed as positional arguments.
pub keywords_clash :
    (class_of : Value → Value) (base args : List Value) (kwargs : Dict Value)
    → args_to_key class_of base (args ++ spelled (sorted_items kwargs)) [] false none_ignored
      ≡ args_to_key class_of base args kwargs false none_ignored
unfolding args_to_key sorted_items spelled classes keep_kwargs
keywords_clash class_of base args kwargs =
    rw (keep_all (args ++ spelled (sorted_items kwargs)) 0, keep_all args 0, keep_named kwargs)
      (simp (append_assoc, append-nil))

-- the positional arguments with another one at a position
abbrev pub put_arg : ℕ → Value → List Value → List Value
put_arg i w [] = []
put_arg zero w (v ∷ vs) = w ∷ vs
put_arg (suc i) w (v ∷ vs) = v ∷ put_arg i w vs

keep_args-put :
    (ignored : List ℕ) (i n : ℕ) (w : Value) (vs : List Value)
    → has_position ignored (n + i) ≡ true
    → keep_args ignored n (put_arg i w vs) ≡ keep_args ignored n vs
unfolding keep_args
keep_args-put ignored i n w [] there = refl
keep_args-put ignored zero n w (v ∷ vs) there =
    let e : has_position ignored n ≡ true = ap (has_position ignored) (omega arith) ∙ there in
    rw (e)
keep_args-put ignored (suc i) n w (v ∷ vs) there =
    let e : has_position ignored (n + 1 + i) ≡ true =
      ap (has_position ignored) (omega arith) ∙ there in
    rw (keep_args-put ignored i (n + 1) w vs e)

-- A positional argument at an ignored position has no part in the key.
pub ignored_argument :
    (class_of : Value → Value) (base args : List Value) (kwargs : Dict Value) (typed : Bool)
    (ignore : Ignored) (i : ℕ) (w : Value)
    → has_position ignore.positions i ≡ true
    → args_to_key class_of base (put_arg i w args) kwargs typed ignore
      ≡ args_to_key class_of base args kwargs typed ignore
unfolding args_to_key
ignored_argument class_of base args kwargs typed ignore i w there = rw (
    keep_args-put ignore.positions i 0 w args
      (ap (has_position ignore.positions) (omega arith) ∙ there))
