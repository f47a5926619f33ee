-- ===== src/Deque/Left.antt =====
-- `appendleft` of a deque with a maximum length.
use diskcache_rs.Base.{
  ℕ, zero, suc, ◌≤◌, ◌≡◌, refl, ap, true, some, none, List, [], ◌∷◌, ◌++◌, arith, length, take, ltb,
  ltb→lt, Bool-cases, inl, inr,
}
use diskcache_rs.Base.Int.{ℤ, pos, ◌-ℤ◌}
use diskcache_rs.Cache.Laws.{ready}
use diskcache_rs.Cache.Queue.{item_key}
use diskcache_rs.Cache.Queue.Push.{push_front}
use diskcache_rs.Cache.State.{Cache}
use diskcache_rs.Deque.{append_left}
use diskcache_rs.Deque.Items.{IsDeque}
use diskcache_rs.Deque.Ends.{too_long_lem, pop_lem}
use diskcache_rs.Exec.{ok}
use diskcache_rs.Host.{Host}
use diskcache_rs.Host.Sound.{IsSound}
use diskcache_rs.Value.{Value, is_plain}

-- the last value apart from the others
unsnoc :
    (v : Value) (items : List Value)
    → (front : List Value) × (w : Value) × (v ∷ items ≡ front ++ w ∷ [])
      × (length front ≡ length items)
unsnoc v [] = ([], v, refl, refl)
unsnoc v (x ∷ items) =
    let (front, w, e, same) = unsnoc x items in
    (v ∷ front, w, ap (λ l. v ∷ l) e, omega (arith, same))

take-append :
    (m : ℕ) (front : List Value) (w : Value) → length front ≡ m → take m (front ++ w ∷ []) ≡ front
take-append zero [] w e = refl
take-append zero (x ∷ front) w e = absurd (omega (arith, e))
take-append (suc m) [] w e = absurd (omega (arith, e))
take-append (suc m) (x ∷ front) w e = ap (λ l. x ∷ l) (take-append m front w (omega (arith, e)))

take_all : (m : ℕ) (vs : List Value) → length vs ≤ m → take m vs ≡ vs
take_all zero [] le = refl
take_all (suc m) [] le = refl
take_all zero (x ∷ vs) le = absurd (omega arith)
take_all (suc m) (x ∷ vs) le = ap (λ l. x ∷ l) (take_all m vs (omega arith))

module _ {h : Host} (sound : IsSound h) where
  -- If a deque holds at most m values, the new value is plain and the key of the index before the
  -- first is taken, then appendleft with the maximum m succeeds and leaves the first m of the new
  -- value followed by the others.
  pub append_left_bounded :
      (m : ℕ) (c : Cache h) (front : ℤ) (items : List Value) (v : Value)
      → IsDeque sound c front items
      → length items ≤ m
      → is_plain v ≡ true
      → ready sound c (item_key none (front -ℤ pos 1)) ≡ true
      → (c' : Cache h) × (append_left h (some m) v c ≡ (ok tt, c'))
        × IsDeque sound c' (front -ℤ pos 1) (take m (v ∷ items))
  unfolding append_left
  append_left_bounded m c front items v q fits plain can =
      let less = front -ℤ pos 1 in
      let (c₁, e₁, q₁, _) = push_front sound none c front items q v plain none none can in
      elim (Bool-cases (ltb m (length (v ∷ items)))) [
        | inl over ↦
            let (init, w, e, same) = unsnoc v items in
            let (c₂, e₂, q₂) = pop_lem sound c₁ less w init (rw e at q₁) in
            let full : length init ≡ m = omega (arith, same, ltb→lt _ _ over) in
            (
              c₂,
              rw (e₁, too_long_lem sound c₁ less m _ q₁, over, e₂),
              rw (e, take-append m init w full) q₂,
            )
        | inr fine ↦ (
          c₁,
          rw (e₁, too_long_lem sound c₁ less m _ q₁, fine),
          rw (take_all m (v ∷ items) (ground arith)) q₁,
        )
      ]
