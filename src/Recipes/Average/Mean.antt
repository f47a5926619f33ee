-- ===== src/Recipes/Average/Mean.antt =====
-- What an `Averager` that started without its key returns.
use diskcache_rs.Base.{
  ℕ, suc, zero, ◌+◌, ◌-◌, ◌≡◌, refl, sym, ◌∙◌, ap, none, some, Option-cases, inl, inr, true, false,
  List, [], ◌∷◌, length, arith, eq_refl,
}
use diskcache_rs.Base.Int.{pos, add_pos}
use diskcache_rs.Cache.Laws.Change.{pop-present}
use diskcache_rs.Cache.Laws.{ready, store_writes}
use diskcache_rs.Cache.Memo.{transact}
use diskcache_rs.Cache.State.{Cache}
use diskcache_rs.Cache.Read.{get_value}
use diskcache_rs.Cache.Remove
use diskcache_rs.Cache.Read.{missing}
use diskcache_rs.Cache.View.{
  decoded, row, view, has, get_or, get_value-view, contains-has, has_of_view,
}
use diskcache_rs.Exec.{Exec, Result, ok, pure, ◌>>◌}
use diskcache_rs.Host.{Host}
use diskcache_rs.Host.Sound.{IsSound}
use diskcache_rs.Recipes.Average.{Numbers, two_of, one_more, is_zero, mean, add, get, pop}
use diskcache_rs.Recipes.Mutex.{Params}
use diskcache_rs.Value.{Value, null, int, pair, is_plain}

module _ (h : Host) (num : Numbers) (p : Params) where
  abbrev pub add_each : List Value → Exec (Cache h) (Unit {0})
  add_each [] = pure tt
  add_each (v ∷ vs) = add h num p v >> add_each vs

-- Sums of the values so far are plain values: `Adds a vs b` says that `b` is `a` plus each of `vs`.
module _ (num : Numbers) where
  pub data Adds : Value → List Value → Value → Type 0 where
    no_more : {a : Value} → is_plain a ≡ true → Adds a [] a
    one :
        {a b c : Value} {vs : List Value} (v : Value)
        → is_plain a ≡ true
        → num.plus a v ≡ ok b
        → Adds b vs c
        → Adds a (v ∷ vs) c

  pub Adds-start : {a c : Value} {vs : List Value} → Adds a vs c → is_plain a ≡ true
  Adds-start (no_more plain) = plain
  Adds-start (one v plain e rest) = plain

module _ {h : Host} (sound : IsSound h) (num : Numbers) (p : Params) where
  -- what the key holds, or what is taken if it holds nothing
  abbrev held : Cache h → Value
  held c = get_or (view sound c p.key) (pair num.zero (int (pos 0)))

  absent_held : (c : Cache h) → has sound c p.key ≡ false → held c ≡ pair num.zero (int (pos 0))
  unfolding view decoded
  absent_held c free = ground arith

  counted_plain : (b : Value) (n : ℕ) → is_plain b ≡ true → is_plain (pair b (int (pos n))) ≡ true
  unfolding is_plain
  counted_plain b n plain = rw (plain)

  -- the cache inside `transact`
  abbrev inside : Cache h → Cache h
  inside c = record c { depth = c.depth + 1 }

  add_one :
      (c : Cache h) (a b v : Value) (n : ℕ)
      → ready sound c p.key ≡ true
      → held c ≡ pair a (int (pos n))
      → num.plus a v ≡ ok b
      → is_plain b ≡ true
      → (c' : Cache h) × (add h num p v c ≡ (ok tt, c'))
        × (ready sound c' p.key ≡ true)
        × (held c' ≡ pair b (int (pos (n + 1))))
  unfolding add two_of one_more transact ready view row
  add_one c a b v n can here e plain =
      let nothing = pair num.zero (int (pos 0)) in
      let found : get_value h p.key nothing (inside c) ≡ (ok (pair a (int (pos n))), inside c) =
        get_value-view sound (inside c) p.key nothing ∙ ap (λ v. (ok v, inside c)) here in
      let (c', e', w) =
        store_writes sound p.key (pair b (int (pos (n + 1)))) p.expire p.tag (inside c) can
          (counted_plain b (n + 1) plain) in
      (
        record c' { depth = c'.depth - 1 },
        rw (found, e, add_pos n 1, e'),
        w.opens p.key ∙ can,
        rw (w.views p.key, eq_refl p.key),
      )

  add_rest :
      (vs : List Value) (c : Cache h) (a b : Value) (n : ℕ)
      → ready sound c p.key ≡ true
      → held c ≡ pair a (int (pos n))
      → Adds num a vs b
      → (c' : Cache h) × (add_each h num p vs c ≡ (ok tt, c'))
        × (ready sound c' p.key ≡ true)
        × (held c' ≡ pair b (int (pos (n + length vs))))
  add_rest [] c a b n can here (no_more plain) =
      (c, refl, can, here ∙ ap (λ m. pair a (int (pos m))) (omega arith))
  add_rest (_ ∷ vs) c a b n can here (one v plain e rest) =
      let (c₁, e₁, can₁, here₁) = add_one c a _ v n can here e (Adds-start num rest) in
      let (c₂, e₂, can₂, here₂) = add_rest vs c₁ _ b (n + 1) can₁ here₁ rest in
      (c₂, rw (e₁, e₂), can₂, here₂ ∙ ap (λ m. pair b (int (pos m))) (omega arith))

  -- the mean that `get` and `pop` return
  abbrev pub mean_of : Value → ℕ → Result Value
  mean_of b zero = ok null
  mean_of b (suc n) = num.divide b (int (pos (suc n)))

  mean_lem : (b : Value) (n : ℕ) → mean h num (b, int (pos n)) ≡ mean_of b n
  unfolding mean is_zero
  mean_lem b zero = refl
  mean_lem b (suc n) = ground arith

  get_lem :
      (c : Cache h) (b : Value) (n : ℕ)
      → held c ≡ pair b (int (pos n))
      → get h num p c ≡ (mean_of b n, c)
  unfolding get two_of
  get_lem c b n here =
      let nothing = pair num.zero (int (pos 0)) in
      let found : get_value h p.key nothing c ≡ (ok (pair b (int (pos n))), c) =
        get_value-view sound c p.key nothing ∙ ap (λ v. (ok v, c)) here in
      rw (found, mean_lem b n)

  pop_mean_lem :
      (c : Cache h) (b : Value) (n : ℕ)
      → ready sound c p.key ≡ true
      → view sound c p.key ≡ some (pair b (int (pos n)))
      → (c' : Cache h) × (pop h num p c ≡ (mean_of b n, c')) × (has sound c' p.key ≡ false)
  unfolding pop two_of
  pop_mean_lem c b n can here =
      let (c', e, erased) =
        pop-present sound p.key c can (pair num.zero (int (pos 0))) false false
          (has_of_view sound c p.key _ here) in
      (c', rw (e, here, mean_lem b n), erased.rows p.key ∙ rw (eq_refl p.key))

  -- a total that has been counted stands in the cache
  stands :
      (c : Cache h) (b : Value) (n : ℕ)
      → held c ≡ pair b (int (pos (suc n)))
      → view sound c p.key ≡ some (pair b (int (pos (suc n))))
  stands c b n here = elim (Option-cases (view sound c p.key)) [
    | inl gone ↦ absurd (ground (arith, here))
    | inr (v, there) ↦
        let same : v ≡ pair b (int (pos (suc n))) =
          ap (λ o. get_or o (pair num.zero (int (pos 0)))) (sym there) ∙ here in
        there ∙ ap some same
  ]

  pop_none : (c : Cache h) → has sound c p.key ≡ false → pop h num p c ≡ (ok null, c)
  unfolding pop two_of Remove.pop missing view decoded
  pop_none c free =
      let gone : view sound c p.key ≡ none = ground (arith, free) in
      rw (
        get_value-view sound c p.key null,
        gone,
        contains-has sound c p.key,
        free,
        mean_lem num.zero 0,
      )

  -- If a cache takes the key of an Averager and has no row for it, and the sums of the added
  -- values are plain, then after adding a list of values get returns their sum divided by their
  -- number, and None for the empty list, and changes nothing, and pop returns the same and leaves
  -- the key without a row.
  pub averages :
      (vs : List Value) (c : Cache h) (b : Value)
      → ready sound c p.key ≡ true
      → has sound c p.key ≡ false
      → Adds num num.zero vs b
      → (c' : Cache h) × (add_each h num p vs c ≡ (ok tt, c'))
        × (get h num p c' ≡ (mean_of b (length vs), c'))
        × (c'' : Cache h) × (pop h num p c' ≡ (mean_of b (length vs), c''))
        × (has sound c'' p.key ≡ false)
  averages [] c b can free (no_more plain) =
      (c, refl, get_lem c num.zero 0 (absent_held c free), c, pop_none c free, free)
  averages (v ∷ vs) c b can free adds =
      let (c', e, can', here) = add_rest (v ∷ vs) c num.zero b 0 can (absent_held c free) adds in
      let here' : held c' ≡ pair b (int (pos (suc (length vs)))) =
        here ∙ ap (λ m. pair b (int (pos m))) (omega arith) in
      let (c'', e', gone) =
        pop_mean_lem c' b (suc (length vs)) can' (stands c' b (length vs) here') in
      (c', e, get_lem c' b (suc (length vs)) here', c'', e', gone)
