-- ===== src/Recipes/Throttle/Calls.antt =====
-- Many turns of a throttle, by any of the callers, at times that do not fall.
use native.Mathlib.Nat.{add-mul}
use diskcache_rs.Base.{
  ℕ, suc, ◌+◌, ◌-◌, ◌*◌, ◌≤◌, ◌<◌, ◌≡◌, refl, ap, true, false, none, some, List, [], ◌∷◌, arith,
  leb, ◌==◌, Bool-cases, inl, inr, leb→le,
}
use diskcache_rs.Base.Int.{pos, ltb_ℤ}
use diskcache_rs.Cache.Laws.{ready}
use diskcache_rs.Cache.State.{Cache}
use diskcache_rs.Exec.{Exec, ok, pure, ◌>>=◌, ◌>>◌}
use diskcache_rs.Dict
use diskcache_rs.Host.{Host}
use diskcache_rs.Host.Sound.{IsSound}
use diskcache_rs.Recipes.Throttle.{Rate, decorate, turn, wrapper}
use diskcache_rs.Recipes.Throttle.Bound.{IsTally, grown, left, least, take, wait, stores}

-- Times from `a` to `b` that do not fall.
pub data Rising : ℕ → List ℕ → ℕ → Type 0 where
  done : {a b : ℕ} → a ≤ b → Rising a [] b
  next :
      {a b : ℕ} {times : List ℕ} (now : ℕ) → a ≤ now → Rising now times b → Rising a (now ∷ times) b

Rising-le : {a b : ℕ} {times : List ℕ} → Rising a times b → a ≤ b
Rising-le (done le) = le
Rising-le (next now le rest) = omega (arith, Rising-le rest)

earlier : {a b c : ℕ} {times : List ℕ} → a ≤ b → Rising b times c → Rising a times c
earlier le (done le') = done (omega arith)
earlier le (next now le' rest) = next now (omega arith) rest

-- the number of turns at the times given that let a call through
unfoldable pub passed : (h : Host) → Rate → List ℕ → Exec (Cache h) ℕ
unfolding turn
passed h r [] = pure 0
passed h r (now ∷ times) =
    let rest = passed h r times in
    do missing ← turn h r now; n ← rest; pure (elim missing [ none ↦ n + 1 | some m ↦ n ])

-- the tally grows by the same over two stretches of time as over both
two_stretches : (a b c k : ℕ) → a ≤ b → b ≤ c → (b - a) * k + (c - b) * k ≡ (c - a) * k
two_stretches a b c k le le' = rw (← add-mul (b - a) (c - b) k) (ap (λ x. x * k) (omega arith))

module _ {h : Host} (sound : IsSound h) (r : Rate) (some_ : 1 ≤ r.count) where
  left_le : (t : ℕ) → r.window ≤ t → left sound r t + r.window ≤ t
  left_le t enough = elim (Bool-cases (ltb_ℤ (pos (r.count * r.window)) (pos t))) [
    | inl over ↦
        let lt : r.count * r.window < t = ground arith in
        rw (over) (omega (arith, lt, least r.count r.window some_))
    | inr under ↦ rw (under) (omega arith)
  ]

  budget :
      (times : List ℕ) (c : Cache h) (last t end : ℕ)
      → IsTally sound r c last t
      → Rising last times end
      → (n : ℕ) × (c' : Cache h) × (passed h r times c ≡ (ok n, c'))
        × (n * r.window ≤ t + (end - last) * r.count)
  unfolding passed
  budget [] c last t end it (done le) = (0, c, refl, omega arith)
  budget (_ ∷ times) c last t end it (next now le rest) =
      elim (Bool-cases (leb r.window (grown sound r last t now))) [
        | inl enough ↦
            let (c₁, e₁, it₁, _) = take sound r c last t now some_ it le (leb→le _ _ enough) in
            let (n, c₂, e₂, le₂) = budget times c₁ now _ end it₁ rest in
            (
              n + 1,
              c₂,
              rw (e₁, e₂),
              omega (
                arith,
                le₂,
                left_le _ (leb→le _ _ enough),
                two_stretches last now end r.count le (Rising-le rest),
              ),
            )
        | inr few ↦
            let e₁ = wait sound r c last t now some_ it le (ground arith) in
            let (n, c₂, e₂, le₂) = budget times c last t end it (earlier le rest) in
            (n, c₂, rw (e₁, e₂), le₂)
      ]

  -- If a throttle of at least one call per window, over a window that is not zero, is set up at a
  -- time on a cache that takes its key, then whatever turns its callers make at times that do not
  -- fall, up to an end, each turn returns, and the number of calls let through times the window
  -- is at most the count times the window plus the count times the time since the start.
  pub passed_bound :
      (times : List ℕ) (c : Cache h) (start end : ℕ)
      → ready sound c r.key ≡ true
      → (r.window == 0) ≡ false
      → Rising start times end
      → (n : ℕ) × (c' : Cache h) × ((decorate h r start >> passed h r times) c ≡ (ok n, c'))
        × (n * r.window ≤ r.count * r.window + (end - start) * r.count)
  unfolding decorate
  passed_bound times c start end can positive rising =
      let (c', e, it, _) = stores sound r c start (r.count * r.window) r.tag can in
      let (n, d, e', le) = budget times c' start (r.count * r.window) end it rising in
      (n, d, rw (positive, e, e'), le)

  -- the sleep that a turn asks for is long enough for the tally to grow to one call
  grown_after :
      (last t now later : ℕ)
      → last ≤ now
      → now ≤ later
      → r.window - grown sound r last t now ≤ (later - now) * r.count
      → r.window ≤ grown sound r last t later
  grown_after last t now later le le' slept =
      omega (arith, two_stretches last now later r.count le le')

  -- If the key of a throttle of at least one call per window holds a tally of a time that has
  -- passed, and sleep_func returns no earlier than asked, then a call of the wrapper, with no
  -- call of another in between, is let through in its first turn or in the one after its first
  -- sleep, however little the tally was: with two turns or more the loop ends.
  pub waits_once :
      (sleep : ℕ → ℕ → ℕ → ℕ) (c : Cache h) (last t now turns : ℕ)
      → IsTally sound r c last t
      → last ≤ now
      → ((now' missing rate : ℕ) → now' ≤ sleep now' missing rate)
      → ((now' missing rate : ℕ) → 1 ≤ rate → missing ≤ (sleep now' missing rate - now') * rate)
      → (c' : Cache h) × (wrapper h r sleep (suc (suc turns)) now c ≡ (ok true, c'))
  unfolding wrapper
  waits_once sleep c last t now turns it le forward sleeps =
      elim (Bool-cases (leb r.window (grown sound r last t now))) [
        | inl enough ↦
            let (c₁, e₁, _, _) = take sound r c last t now some_ it le (leb→le _ _ enough) in
            (c₁, rw (e₁))
        | inr few ↦
            let e₁ = wait sound r c last t now some_ it le (ground arith) in
            let missing = r.window - grown sound r last t now in
            let later = sleep now missing r.count in
            let on : now ≤ later = forward now missing r.count in
            let enough = grown_after last t now later le on (sleeps now missing r.count some_) in
            let (c₂, e₂, _, _) = take sound r c last t later some_ it (omega arith) enough in
            (c₂, rw (e₁, e₂))
      ]

  -- The tag that the decorator records is gone once a call has been let through.
  pub tag_dropped :
      (c : Cache h) (start now : ℕ)
      → ready sound c r.key ≡ true
      → (r.window == 0) ≡ false
      → start ≤ now
      → (c₁ : Cache h) × (c₂ : Cache h) × (decorate h r start c ≡ (ok tt, c₁))
        × (Dict.get c₁.tags r.key ≡ r.tag)
        × (turn h r now c₁ ≡ (ok none, c₂))
        × (Dict.get c₂.tags r.key ≡ none)
  unfolding decorate
  tag_dropped c start now can positive le =
      let (c₁, e₁, it, own) = stores sound r c start (r.count * r.window) r.tag can in
      let enough : r.window ≤ grown sound r start (r.count * r.window) now =
        omega (arith, least r.count r.window some_) in
      let (c₂, e₂, _, own') = take sound r c₁ start (r.count * r.window) now some_ it le enough in
      (c₁, c₂, rw (positive, e₁), own, e₂, own')
