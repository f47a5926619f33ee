-- ===== src/Deque/Compare.antt =====
-- The comparisons of a deque with the values of another iterable, and the other methods that
-- iterate over it. How two values compare is a parameter; each comparison may raise.
use diskcache_rs.Base.{
  ℕ, ◌≡◌, refl, Bool, true, false, ◌&&◌, not, Option, List, [], ◌∷◌, reverse, length, ltb, leb,
  if◌then◌else◌,
}
use diskcache_rs.Base.Int.{pos, ltb_ℤ}
use diskcache_rs.Cache.Memo
use diskcache_rs.Cache.Remove
use diskcache_rs.Cache.State.{Cache}
use diskcache_rs.Deque.{all_items, len, extend}
use diskcache_rs.Exec.{Exec, Result, ok, pure, lift, ◌>>=◌}
use diskcache_rs.Host.{Host}
use diskcache_rs.Value.{Value}

-- `<`, `<=`, `>`, `>=` of two values
pub record Order : Type 0 where
  pub less : Value → Value → Result Bool
  pub at_most : Value → Value → Result Bool
  pub greater : Value → Value → Result Bool
  pub at_least : Value → Value → Result Bool

module _ (h : Host) where
  -- `list(a) == list(b)`
  unfoldable pub same_values : List Value → List Value → Bool
  same_values [] [] = true
  same_values (v ∷ vs) (w ∷ ws) = h.equal v w && same_values vs ws
  same_values _ _ = false

  -- a comparison of lists: that of the first values that differ, else that of the lengths
  unfoldable pub compared :
      (Value → Value → Result Bool) → (ℕ → ℕ → Bool) → List Value → List Value → Result Bool
  compared values lengths [] ws = ok (lengths 0 (length ws))
  compared values lengths (v ∷ vs) [] = ok (lengths (length (v ∷ vs)) 0)
  compared values lengths (v ∷ vs) (w ∷ ws) =
      let rest = compared values lengths vs ws in if h.equal v w then rest else values v w

  unfoldable pub equals : List Value → Exec (Cache h) Bool
  unfolding same_values
  equals other = do vs ← all_items h; pure (same_values vs other)

  unfoldable pub differs : List Value → Exec (Cache h) Bool
  unfolding equals
  differs other = do same ← equals other; pure (not same)

  module _ (order : Order) where
    unfoldable pub is_less : List Value → Exec (Cache h) Bool
    unfolding compared
    is_less other = do vs ← all_items h; lift (compared order.less ltb vs other)

    unfoldable pub is_at_most : List Value → Exec (Cache h) Bool
    unfolding compared
    is_at_most other = do vs ← all_items h; lift (compared order.at_most leb vs other)

    unfoldable pub is_greater : List Value → Exec (Cache h) Bool
    unfolding compared
    is_greater other = do vs ← all_items h; lift (compared order.greater (λ m n. ltb n m) vs other)

    unfoldable pub is_at_least : List Value → Exec (Cache h) Bool
    unfolding compared
    is_at_least other = do
      vs ← all_items h
      lift (compared order.at_least (λ m n. leb n m) vs other)

  unfoldable pub is_nonempty : Exec (Cache h) Bool
  is_nonempty = do n ← len h; pure (ltb_ℤ (pos 0) n)

  unfoldable pub transact : {A : Type 0} → Exec (Cache h) A → Exec (Cache h) A
  unfolding Memo.transact
  transact body = Memo.transact h body

  -- `with deque: body`
  unfoldable pub with_deque : {A : Type 0} → Exec (Cache h) A → Exec (Cache h) A
  unfolding Memo.with_cache
  with_deque body = Memo.with_cache h body

  unfoldable pub close : Exec (Cache h) (Unit {0})
  close = Remove.close h

  -- the values that `__reversed__` yields
  unfoldable pub backwards : Exec (Cache h) (List Value)
  backwards = do vs ← all_items h; pure (reverse vs)

  -- `self += other`
  unfoldable pub add_all : Option ℕ → List Value → Exec (Cache h) (Unit {0})
  add_all maxlen other = extend h maxlen other

  -- `copy`: the values are appended to a deque in a new directory, whose cache is `fresh`
  unfoldable pub copy : Option ℕ → Cache h → Exec (Cache h) (Result (Unit {0}) × Cache h)
  copy maxlen fresh = do vs ← all_items h; pure (extend h maxlen vs fresh)

-- The comparison with a deque of the same values, when values equal themselves.
same_values_refl :
    (h : Host) (vs : List Value) → ((v : Value) → h.equal v v ≡ true) → same_values h vs vs ≡ true
unfolding same_values
same_values_refl h [] eq = refl
same_values_refl h (v ∷ vs) eq = rw (eq v, same_values_refl h vs eq)
