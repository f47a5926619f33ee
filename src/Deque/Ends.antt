-- ===== src/Deque/Ends.antt =====
-- Adding and taking at the two ends, with and without a maximum length.
use native.Mathlib.Nat.{add-zero}
use diskcache_rs.Base.{
  ℕ, zero, suc, ◌-◌, ◌≤◌, ◌≡◌, refl, ap, true, false, none, some, List, [], ◌∷◌, ◌++◌, arith,
  length, length-append, drop, ltb, ltb→lt, Bool-cases, inl, inr,
}
use diskcache_rs.Base.Int.{ℤ, pos, ◌+ℤ◌}
use diskcache_rs.Cache.Laws.{ready}
use diskcache_rs.Cache.Queue.{item_key, nothing}
use diskcache_rs.Cache.Queue.Agree.{peek-pull}
use diskcache_rs.Cache.Queue.Push.{push_back}
use diskcache_rs.Cache.Queue.Pull.{pull_back, pull_front, pull_empty, peek_back, peek_front}
use diskcache_rs.Cache.State.{Cache}
use diskcache_rs.Deque.{append, too_long, pop, pop_left, peek, peek_left}
use diskcache_rs.Deque.Items.{IsDeque, len-length}
use diskcache_rs.Exec.{ok, raised, index_error}
use diskcache_rs.Host.{Host}
use diskcache_rs.Host.Sound.{IsSound}
use diskcache_rs.Value.{Value, null, is_plain}

-- the last `m` values
abbrev pub keep_last : ℕ → List Value → List Value
keep_last m vs = drop (length vs - m) vs

uncons :
    (items : List Value) (v : Value)
    → (w : Value) × (rest : List Value) × (items ++ v ∷ [] ≡ w ∷ rest)
      × (length rest ≡ length items)
uncons [] v = (v, [], refl, refl)
uncons (w ∷ items) v = (w, items ++ v ∷ [], refl, omega (arith, length-append {0} items (v ∷ [])))

drop_none : (n : ℕ) (vs : List Value) → n ≡ 0 → drop n vs ≡ vs
drop_none zero vs e = refl
drop_none (suc n) vs e = absurd (omega arith)

drop_one : (n : ℕ) (v : Value) (vs : List Value) → n ≡ 1 → drop n (v ∷ vs) ≡ vs
drop_one zero v vs e = absurd (omega arith)
drop_one (suc n) v vs e = drop_none n vs (omega arith)

-- appending one value to at most `m` leaves one too many, or none
keep_last_over :
    (m : ℕ) (items : List Value) (v w : Value) (rest : List Value)
    → length items ≤ m
    → items ++ v ∷ [] ≡ w ∷ rest
    → length rest ≡ length items
    → ltb m (length (items ++ v ∷ [])) ≡ true
    → keep_last m (items ++ v ∷ []) ≡ rest
keep_last_over m items v w rest fits e same over =
    rw e (drop_one (suc (length rest) - m) w rest (omega (arith, ap length e, ltb→lt _ _ over)))

keep_last_fits : (m : ℕ) (vs : List Value) → ltb m (length vs) ≡ false → keep_last m vs ≡ vs
keep_last_fits m vs fine = drop_none (length vs - m) vs (ground arith)

module _ {h : Host} (sound : IsSound h) (c : Cache h) (front : ℤ) where
  -- If a deque holds v, items then popleft returns v and leaves items.
  pub pop_left_lem :
      (v : Value) (items : List Value)
      → IsDeque sound c front (v ∷ items)
      → (c' : Cache h) × (pop_left h c ≡ (ok v, c')) × IsDeque sound c' (front +ℤ pos 1) items
  unfolding pop_left
  pop_left_lem v items q =
      let (c', e, q') = pull_front sound none false false c front items (null, null) v q in
      (c', rw e, q')

  -- If a deque holds items, v then pop returns v and leaves items.
  pub pop_lem :
      (v : Value) (items : List Value)
      → IsDeque sound c front (items ++ v ∷ [])
      → (c' : Cache h) × (pop h c ≡ (ok v, c')) × IsDeque sound c' front items
  unfolding pop
  pop_lem v items q =
      let (c', e, q') = pull_back sound none false false c front items (null, null) v q in
      (c', rw e, q')

  -- On an empty deque pop and popleft raise IndexError and change nothing.
  pub pop_empty :
      IsDeque sound c front []
      → (pop h c ≡ (raised index_error, c)) × (pop_left h c ≡ (raised index_error, c))
  unfolding pop pop_left nothing
  pop_empty q =
      let (f, b) = pull_empty sound none false false c front (null, null) q in (rw b, rw f)

  -- On an empty deque peek and peekleft raise IndexError and change nothing.
  pub peek_empty :
      IsDeque sound c front []
      → (peek h c ≡ (raised index_error, c)) × (peek_left h c ≡ (raised index_error, c))
  unfolding peek peek_left nothing
  peek_empty q =
      let (f, b) = pull_empty sound none false false c front (null, null) q in
      (
        rw (peek-pull sound none false false c (null, null) "back", b),
        rw (peek-pull sound none false false c (null, null) "front", f),
      )

  pub peek_lem :
      (v : Value) (items : List Value)
      → IsDeque sound c front (items ++ v ∷ [])
      → peek h c ≡ (ok v, c)
  unfolding peek
  peek_lem v items q = rw (peek_back sound none false false c front items (null, null) v q)

  pub peek_left_lem :
      (v : Value) (items : List Value)
      → IsDeque sound c front (v ∷ items)
      → peek_left h c ≡ (ok v, c)
  unfolding peek_left
  peek_left_lem v items q = rw (peek_front sound none false false c front items (null, null) v q)

module _ {h : Host} (sound : IsSound h) where
  pub too_long_lem :
      (c : Cache h) (front : ℤ) (m : ℕ) (items : List Value)
      → IsDeque sound c front items
      → too_long h (some m) c ≡ (ok (ltb m (length items)), c)
  unfolding too_long
  too_long_lem c front m items q = rw (len-length sound c front items q) (simp add-zero)

  -- If the new value is plain and the key of the next index is taken, append on a deque without a
  -- maximum succeeds and puts the value last.
  pub append_unbounded :
      (c : Cache h) (front : ℤ) (items : List Value) (v : Value)
      → IsDeque sound c front items
      → is_plain v ≡ true
      → ready sound c (item_key none (front +ℤ pos (length items))) ≡ true
      → (c' : Cache h) × (append h none v c ≡ (ok tt, c'))
        × IsDeque sound c' front (items ++ v ∷ [])
  unfolding append
  append_unbounded c front items v q plain can =
      let (c', e, q', _) = push_back sound none c front items q v plain none none can in
      (c', rw e, q')

  -- If a deque holds at most m values, the new value is plain and the key of the next index is
  -- taken, then append with the maximum m succeeds and leaves the last m of the values followed
  -- by the new one.
  pub append_bounded :
      (m : ℕ) (c : Cache h) (front : ℤ) (items : List Value) (v : Value)
      → IsDeque sound c front items
      → length items ≤ m
      → is_plain v ≡ true
      → ready sound c (item_key none (front +ℤ pos (length items))) ≡ true
      → (c' : Cache h) × (front' : ℤ) × (append h (some m) v c ≡ (ok tt, c'))
        × IsDeque sound c' front' (keep_last m (items ++ v ∷ []))
  unfolding append
  append_bounded m c front items v q fits plain can =
      let (c₁, e₁, q₁, _) = push_back sound none c front items q v plain none none can in
      elim (Bool-cases (ltb m (length (items ++ v ∷ [])))) [
        | inl over ↦
            let (w, rest, e, same) = uncons items v in
            let (c₂, e₂, q₂) = pop_left_lem sound c₁ front w rest (rw e at q₁) in
            (
              c₂,
              front +ℤ pos 1,
              rw (e₁, too_long_lem c₁ front m _ q₁, over, e₂),
              rw (keep_last_over m items v w rest fits e same over) q₂,
            )
        | inr fine ↦ (
          c₁,
          front,
          rw (e₁, too_long_lem c₁ front m _ q₁, fine),
          rw (keep_last_fits m (items ++ v ∷ []) fine) q₁,
        )
      ]
