-- ===== src/Recipes/Throttle/Bound.antt =====
-- How many calls a throttle lets through.
use diskcache_rs.Base.{
  ℕ, suc, zero, ◌+◌, ◌-◌, ◌*◌, ◌≤◌, ◌<◌, String, ◌≡◌, refl, ◌∙◌, ap, true, false, Option, none,
  some, arith, eq_refl, if◌then◌else◌, ◌==◌, Bool-cases, inl, inr,
}
use diskcache_rs.Base.Int.{pos, ◌+ℤ◌, ◌-ℤ◌, add_pos, sub_pos, ltb_ℤ, leb_ℤ}
use diskcache_rs.Cache.Laws.{ready, set_writes}
use diskcache_rs.Cache.Memo.{transact}
use diskcache_rs.Cache.Read.{get_value}
use diskcache_rs.Cache.State.{Cache}
use diskcache_rs.Cache.View.{row, view, get_or, get_value-view}
use diskcache_rs.Cache.Write.{set, read_file}
use diskcache_rs.Dict
use diskcache_rs.Exec.{ok}
use diskcache_rs.Host.{Host}
use diskcache_rs.Host.Sound.{IsSound}
use diskcache_rs.Recipes.Throttle.{Rate, scale, two_of, spend, turn}
use diskcache_rs.Value.{null, int, pair, is_plain}

pub least : (a b : ℕ) → 1 ≤ a → b ≤ a * b
least zero b le = absurd (omega arith)
least (suc a) b le = omega arith

at_most : (a b : ℕ) → a ≤ b → leb_ℤ (pos a) (pos b) ≡ true
at_most a b le = ground arith

not_below : (a b : ℕ) → b ≤ a → ltb_ℤ (pos a) (pos b) ≡ false
not_below a b le = ground arith

not_at_most : (a b : ℕ) → b < a → leb_ℤ (pos a) (pos b) ≡ false
not_at_most a b lt = ground arith

positive : (a : ℕ) → 1 ≤ a → (a == 0) ≡ false
positive a le = ground arith

module _ {h : Host} (sound : IsSound h) (r : Rate) where
  -- the key holds the time `last` and the tally `t`
  pub record IsTally (c : Cache h) (last t : ℕ) : Type 0 where
    pub takes : ready sound c r.key ≡ true
    pub holds : view sound c r.key ≡ some (pair (int (pos last)) (int (pos t)))

  -- what a tally becomes by the time `now`
  abbrev pub grown : ℕ → ℕ → ℕ → ℕ
  grown last t now = t + (now - last) * r.count

  -- what is left of a tally once a call is let through
  abbrev pub left : ℕ → ℕ
  left t =
      if ltb_ℤ (pos (r.count * r.window)) (pos t)
      then r.count * r.window - r.window
      else t - r.window

  pub grows :
      (last t now : ℕ)
      → last ≤ now
      → pos t +ℤ scale (pos now -ℤ pos last) r.count ≡ pos (grown last t now)
  grows last t now le = rw (sub_pos now last le, add_pos t ((now - last) * r.count))

  -- the cache inside `transact`
  abbrev inside : Cache h → Cache h
  inside c = record c { depth = c.depth + 1 }

  -- the lookup that a turn begins with
  found :
      (c : Cache h) (last t : ℕ)
      → IsTally c last t
      → get_value h r.key null (inside c) ≡ (ok (pair (int (pos last)) (int (pos t))), inside c)
  unfolding view row
  found c last t it =
      get_value-view sound (inside c) r.key null ∙ ap (λ v. (ok (get_or v null), inside c)) it.holds

  tally_plain : (a b : ℕ) → is_plain (pair (int (pos a)) (int (pos b))) ≡ true
  unfolding is_plain
  tally_plain a b = refl

  -- what a turn writes
  -- what a turn writes, or the decorator
  pub stores :
      (c : Cache h) (now t : ℕ) (tag : Option String)
      → ready sound c r.key ≡ true
      → (c' : Cache h) × (set h r.key (pair (int (pos now)) (int (pos t))) r.expire false tag c
          ≡ (ok true, c'))
        × IsTally c' now t
        × (Dict.get c'.tags r.key ≡ tag)
  unfolding read_file
  stores c now t tag can =
      let (c', e, w, _, own) =
        set_writes sound r.key (pair (int (pos now)) (int (pos t))) r.expire false tag c can
          (tally_plain now t) in
      (
        c',
        e,
        record { takes = w.opens r.key ∙ can; holds = w.views r.key ∙ rw (eq_refl r.key) refl },
        own,
      )

  spends :
      (c : Cache h) (now t : ℕ)
      → 1 ≤ r.count
      → ready sound c r.key ≡ true
      → r.window ≤ t
      → (c' : Cache h) × (spend h r now (pos t) c ≡ (ok none, c'))
        × IsTally c' now (left t)
        × (Dict.get c'.tags r.key ≡ none)
  unfolding spend
  spends c now t some_ can enough = elim (Bool-cases (ltb_ℤ (pos (r.count * r.window)) (pos t))) [
    | inl over ↦
        let (c', e, it, own) = stores c now (r.count * r.window - r.window) none can in
        (
          c',
          rw (over, sub_pos (r.count * r.window) r.window (least r.count r.window some_), e),
          rw (over) it,
          own,
        )
    | inr under ↦
        let (c', e, it, own) = stores c now (t - r.window) none can in
        (
          c',
          rw (under, at_most r.window t enough, sub_pos t r.window enough, e),
          rw (under) it,
          own,
        )
  ]

  pub take :
      (c : Cache h) (last t now : ℕ)
      → 1 ≤ r.count
      → IsTally c last t
      → last ≤ now
      → r.window ≤ grown last t now
      → (c' : Cache h) × (turn h r now c ≡ (ok none, c'))
        × IsTally c' now (left (grown last t now))
        × (Dict.get c'.tags r.key ≡ none)
  unfolding turn two_of transact ready view
  take c last t now some_ it le enough =
      let (c', e, it', own) = spends (inside c) now (grown last t now) some_ it.takes enough in
      (
        record c' { depth = c'.depth - 1 },
        rw (found c last t it, grows last t now le, e),
        record { takes = it'.takes; holds = it'.holds },
        own,
      )

  waits :
      (c : Cache h) (now t : ℕ)
      → 1 ≤ r.count
      → t < r.window
      → spend h r now (pos t) c ≡ (ok (some (r.window - t)), c)
  unfolding spend
  waits c now t some_ few = rw (
    not_below (r.count * r.window) t (omega (arith, least r.count r.window some_)),
    not_at_most r.window t few,
    positive r.count some_,
    sub_pos r.window t (omega arith),
  )

  pub wait :
      (c : Cache h) (last t now : ℕ)
      → 1 ≤ r.count
      → IsTally c last t
      → last ≤ now
      → grown last t now < r.window
      → turn h r now c ≡ (ok (some (r.window - grown last t now)), c)
  unfolding turn two_of transact
  wait c last t now some_ it le few =
      rw (found c last t it, grows last t now le, waits (inside c) now _ some_ few) (ground arith)
