-- ===== src/Recipes/Semaphore/Safety.antt =====
-- Users of one `BoundedSemaphore` whose turns interleave, as a step relation.
use diskcache_rs.Base.{
  ◌⊎◌, ℕ, suc, ◌≡◌, refl, sym, ◌∙◌, ap, true, false, none, inl, inr, arith, Bool-cases, ltb→lt,
}
use diskcache_rs.Base.Int.{ℤ, pos, ◌+ℤ◌, ◌-ℤ◌, ◌≤ℤ◌, ltb_ℤ, int_laws}
use diskcache_rs.Cache.Laws.{ready}
use diskcache_rs.Cache.State.{Cache}
use diskcache_rs.Cache.View.{view}
use diskcache_rs.Exec.{ok}
use diskcache_rs.Host.{Host}
use diskcache_rs.Host.Sound.{IsSound}
use diskcache_rs.Recipes.Semaphore.{
  Params, try_acquire, release, as_int, IsLeft, try_acquire_lem, release_lem,
}

spend : (n : ℤ) (k : ℕ) → n -ℤ pos 1 +ℤ pos (suc k) ≡ n +ℤ pos k
spend n k = omega int_laws

give : (n : ℤ) (k : ℕ) → n +ℤ pos 1 +ℤ pos k ≡ n +ℤ pos (suc k)
give n k = omega int_laws

left_after : (n : ℤ) → ltb_ℤ (pos 0) n ≡ true → pos 0 ≤ℤ n -ℤ pos 1
left_after n some_left = omega (int_laws, ltb→lt _ _ some_left)

some_of : (n : ℤ) (k : ℕ) → pos 0 ≤ℤ n → pos k ≤ℤ n +ℤ pos k
some_of n k le = omega int_laws

still_positive : (n : ℤ) (k : ℕ) → (suc k ≡ 0) ⊎ (pos 0 ≤ℤ n) → pos 0 ≤ℤ n +ℤ pos 1
still_positive n k low = elim low [ inl e ↦ absurd (omega (arith, e)) | inr le ↦ omega int_laws ]

module _ {h : Host} (sound : IsSound h) (p : Params) where
  -- A turn that gets a permit, one that does not, a release that returns, and any use of the cache
  -- that leaves the key alone. The number is that of the permits held.
  pub data Step : Cache h → ℕ → Cache h → ℕ → Type 0 where
    take_one : {c c' : Cache h} {k : ℕ} → try_acquire h p c ≡ (ok true, c') → Step c k c' (suc k)
    spin : {c c' : Cache h} {k : ℕ} → try_acquire h p c ≡ (ok false, c') → Step c k c' k
    give_one : {c c' : Cache h} {k : ℕ} → release h p c ≡ (ok tt, c') → Step c (suc k) c' k
    elsewhere :
        {c c' : Cache h} {k : ℕ}
        → view sound c' p.key ≡ view sound c p.key
        → ready sound c' p.key ≡ ready sound c p.key
        → Step c k c' k

  -- the states that users reach from a cache that takes the key and has no row for it
  pub data Reach : Cache h → ℕ → Type 0 where
    start : (c : Cache h) → ready sound c p.key ≡ true → view sound c p.key ≡ none → Reach c 0
    later : {c c' : Cache h} {k k' : ℕ} → Reach c k → Step c k c' k' → Reach c' k'

  -- the permits left, which with those held make up the value
  IsBalanced : Cache h → ℕ → Type 0
  IsBalanced c k = (n : ℤ) × IsLeft sound p c n × (n +ℤ pos k ≡ p.value) × ((k ≡ 0) ⊎ (pos 0 ≤ℤ n))

  Step-IsBalanced : {c c' : Cache h} {k k' : ℕ} → Step c k c' k' → IsBalanced c k → IsBalanced c' k'
  unfolding IsBalanced
  Step-IsBalanced {c} {c'} {k} (take_one e) (n, s, sum, low) =
      let (takes, spins) = try_acquire_lem sound p c n s in
      elim (Bool-cases (ltb_ℤ (pos 0) n)) [
        | inl some_left ↦
            let (d, e', s') = takes some_left in
            let same : d ≡ c' = ap (λ r. r.1) (sym e' ∙ e) in
            (n -ℤ pos 1, rw (same) at s', spend n k ∙ sum, inr (left_after n some_left))
        | inr none_left ↦ absurd (ground (arith, e, spins none_left))
      ]
  Step-IsBalanced {c} {c'} {k} (spin e) (n, s, sum, low) =
      let (takes, spins) = try_acquire_lem sound p c n s in
      elim (Bool-cases (ltb_ℤ (pos 0) n)) [
        | inl some_left ↦ let (d, e', s') = takes some_left in absurd (ground (arith, e, e'))
        | inr none_left ↦
            let same : c ≡ c' = ap (λ r. r.1) (sym (spins none_left) ∙ e) in
            (n, rw (same) at s, sum, low)
      ]
  Step-IsBalanced {c} {c'} (give_one {k = k} e) (n, s, sum, low) =
      let (gives, fails) = release_lem sound p c n s in
      elim (Bool-cases (ltb_ℤ n p.value)) [
        | inl taken ↦
            let (d, e', s') = gives taken in
            let same : d ≡ c' = ap (λ r. r.1) (sym e' ∙ e) in
            (n +ℤ pos 1, rw (same) at s', give n k ∙ sum, inr (still_positive n k low))
        | inr all_left ↦ absurd (ground (arith, e, fails all_left))
      ]
  Step-IsBalanced (elsewhere row takes) (n, s, sum, low) =
      (n, record { takes = takes ∙ s.takes; count = rw row s.count }, sum, low)

  Reach-IsBalanced : {c : Cache h} {k : ℕ} → Reach c k → IsBalanced c k
  unfolding IsBalanced as_int
  Reach-IsBalanced (start c can empty) =
      (p.value, record { takes = can; count = rw empty }, omega int_laws, inl refl)
  Reach-IsBalanced (later r st) = Step-IsBalanced st (Reach-IsBalanced r)

  -- If the value of a BoundedSemaphore is not negative, then in every state that its users reach
  -- from a cache that takes its key and has no row for it, by turns of acquire, releases of held
  -- permits and uses of the cache that leave the key alone, no more permits are held than its
  -- value.
  pub Reach-bounded : {c : Cache h} {k : ℕ} → pos 0 ≤ℤ p.value → Reach c k → pos k ≤ℤ p.value
  unfolding IsBalanced
  Reach-bounded {c} {k} value_ok r =
      let (n, s, sum, low) = Reach-IsBalanced r in
      elim low [
        | inl none_held ↦ rw none_held value_ok
        | inr left_ok ↦ rw (← sum) (some_of n k left_ok)
      ]
