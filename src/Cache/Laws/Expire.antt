-- ===== src/Cache/Laws/Expire.antt =====
-- `expire` of python/diskcache_rs/cache.py and the record `_expire_times` that it reads.
use native.Mathlib.Nat.{add-zero}
use diskcache_rs.Base.{
  ℕ, ◌+◌, String, ◌≡◌, refl, sym, ◌∙◌, ap, Bool, true, false, ◌||◌, Option, none, some, arith,
  is_some, Bool-cases, Option-cases, inl, inr, str_eq, eq_refl, List, [], ◌∷◌, length, leb,
  if◌then◌else◌,
}
use diskcache_rs.Cache.Laws.{ready}
use diskcache_rs.Cache.Laws.Picked.{is_in, distinct, picked, passes, picked-passes}
use diskcache_rs.Cache.Remove.{expire, expire_each, expired_keys, drop_expiry}
use diskcache_rs.Cache.State.{Cache, call_open}
use diskcache_rs.Cache.View.{row}
use diskcache_rs.Dict
use diskcache_rs.Dict.{Dict, get-remove}
use diskcache_rs.Exec.{ok}
use diskcache_rs.Host.{Host}
use diskcache_rs.Host.Sound.{IsSound}

-- a time that is there and has come
abbrev pub is_due : ℕ → Option ℕ → Bool
is_due now none = false
is_due now (some t) = leb t now

expired_keys-picked : (now : ℕ) (d : Dict ℕ) → expired_keys now d ≡ picked (λ t. leb t now) d
unfolding expired_keys picked
expired_keys-picked now [] = refl
expired_keys-picked now ((k, t) ∷ d) = rw (expired_keys-picked now d)

passes-is_due : (now : ℕ) (o : Option ℕ) → passes (λ t. leb t now) o ≡ is_due now o
passes-is_due now none = refl
passes-is_due now (some t) = refl

pub expired-due :
    (now : ℕ) (d : Dict ℕ) (j : String)
    → distinct d ≡ true
    → is_in j (expired_keys now d) ≡ is_due now (Dict.get d j)
expired-due now d j u =
    rw (expired_keys-picked now d)
      (picked-passes (λ t. leb t now) d j u ∙ passes-is_due now (Dict.get d j))

module _ {h : Host} (sound : IsSound h) where
  -- `c'` is `c` without the rows and the expiration times of some keys.
  pub record IsExpired (gone : String → Bool) (c c' : Cache h) : Type 0 where
    pub rows : (j : String) → row sound c' j ≡ (if gone j then none else row sound c j)
    pub times :
        (j : String)
        → Dict.get c'.expire_times j ≡ (if gone j then none else Dict.get c.expire_times j)
    pub tags : c'.tags ≡ c.tags
    pub opens : (j : String) → ready sound c' j ≡ ready sound c j

  -- one round of the loop
  module _ (c : Cache h) (s : h.State) (k : String) (open_ : c.rust ≡ some s)
      (good : sound.accepts k ≡ true) where
    unfoldable dropped : Cache h
    dropped = drop_expiry h k (record c { rust = some (h.delete s k).1 })

    dropped-IsExpired : IsExpired (λ j. str_eq k j) c dropped
    dropped-IsExpired = record {
      rows = λ j. unfold row dropped in rw (sound.rows-delete s k j good) (ground arith);
      times = λ j. unfold dropped in get-remove c.expire_times k j;
      tags = unfold dropped in refl;
      opens = λ j. unfold ready dropped in ground arith;
    }

  -- an open cache that takes a key
  opened :
      (c : Cache h) (k : String)
      → ready sound c k ≡ true
      → (s : h.State) × (c.rust ≡ some s) × (sound.accepts k ≡ true)
  unfolding ready
  opened c k can = elim (Option-cases c.rust) [
    | inl closed ↦ absurd (ground arith)
    | inr (s, open_) ↦ (s, open_, ground arith)
  ]

  none-IsExpired : (c : Cache h) → IsExpired (λ j. false) c c
  none-IsExpired c = record { rows = λ j. refl; times = λ j. refl; tags = refl; opens = λ j. refl }

  then-IsExpired :
      {f g : String → Bool} {a b c : Cache h}
      → IsExpired f a b
      → IsExpired g b c
      → IsExpired (λ j. f j || g j) a c
  then-IsExpired {f} {g} {a} {b} {c} x y = record {
    rows = λ j. y.rows j ∙ (elim (Bool-cases (f j)) [
      | inl yes_ ↦ rw (x.rows j, yes_) (ground arith)
      | inr no_ ↦ rw (x.rows j, no_)
    ]);
    times = λ j. y.times j ∙ (elim (Bool-cases (f j)) [
      | inl yes_ ↦ rw (x.times j, yes_) (ground arith)
      | inr no_ ↦ rw (x.times j, no_)
    ]);
    tags = y.tags ∙ x.tags;
    opens = λ j. y.opens j ∙ x.opens j;
  }

  expire_each_lem :
      (ks : List String) (n : ℕ) (c : Cache h)
      → ((k : String) → is_in k ks ≡ true → ready sound c k ≡ true)
      → (c' : Cache h) × (expire_each h ks n c ≡ (ok (n + length ks), c'))
        × IsExpired (λ j. is_in j ks) c c'
  unfolding expire_each is_in dropped
  expire_each_lem [] n c can = (c, rw (add-zero n), none-IsExpired c)
  expire_each_lem (k ∷ ks) n c can =
      let (s, open_, good) = opened c k (can k (rw (eq_refl k))) in
      let c₁ = dropped c s k open_ good in
      let x = dropped-IsExpired c s k open_ good in
      let (c', e, y) =
        expire_each_lem ks (n + 1) c₁ (λ j i. x.opens j ∙ can j (ground (arith, i))) in
      (
        c',
        rw
            (call_open (λ s. h.delete s k) c s (ok (is_some (sound.rows s k))) open_
              (sound.delete_ok s k good))
            (e ∙ ap (λ m. (ok m, c')) (omega arith)),
        then-IsExpired x y,
      )

  -- If no key stands twice in the record of expiration times and the cache takes every key whose
  -- time is not after now, then expire(now) returns the number of those keys, removes their rows
  -- and their recorded times, and leaves the rows and times of all other keys and every tag.
  pub expire_lem :
      (now : ℕ) (c : Cache h)
      → distinct c.expire_times ≡ true
      → ((k : String) → is_due now (Dict.get c.expire_times k) ≡ true → ready sound c k ≡ true)
      → (c' : Cache h) × (expire h (some now) c
          ≡ (ok (length (expired_keys now c.expire_times)), c'))
        × IsExpired (λ j. is_due now (Dict.get c.expire_times j)) c c'
  unfolding expire
  expire_lem now c unique can =
      let ks = expired_keys now c.expire_times in
      let (c', e, x) =
        expire_each_lem ks 0 c (λ k i. can k (sym (expired-due now c.expire_times k unique) ∙ i)) in
      (
        c',
        e ∙ ap (λ m. (ok m, c')) (omega arith),
        record {
          rows = λ j. rw (← expired-due now c.expire_times j unique) (x.rows j);
          times = λ j. rw (← expired-due now c.expire_times j unique) (x.times j);
          tags = x.tags;
          opens = x.opens;
        },
      )
