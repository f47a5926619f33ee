-- ===== src/Fast/Laws.antt =====
-- `FastCache` on the entries that have not expired, and what a time to live amounts to.
use diskcache_rs.Base.{
  ℕ, String, ◌≡◌, refl, ◌∙◌, Bool, true, false, Option, none, some, eq_refl, str_eq, is_some, arith,
  if◌then◌else◌, List, [], ◌∷◌, foldl, Bool-cases, inl, inr, eq_iff,
}
use diskcache_rs.Base.Int.{ℤ, pos, ◌+ℤ◌}
use diskcache_rs.Exec.{Exec, ok, pure, ◌>>◌}
use diskcache_rs.Fast.{
  FastCache, set, get, get_value, exists, delete, add, pop, incr, sum, inner, ttl_or_none,
  expires_at,
}
use diskcache_rs.Host.{Host}
use diskcache_rs.Host.Sound.{IsSound}
use diskcache_rs.Pickled
use diskcache_rs.Pickled.Backend.{Pickles, IsKept}
use diskcache_rs.Pickled.Laws
use diskcache_rs.Value.{Value, int, is_plain, Bytes}

module _ {h : Host} (sound : IsSound h) (x : Pickles) (kept : IsKept x) where
  abbrev pub entry : FastCache x → String → Option Bytes
  entry c k = kept.live c.rust k

  -- a cache whose entries are those of `c`, except at `k`
  abbrev pub Becomes : FastCache x → String → Option Bytes → FastCache x → Type 0
  Becomes c k o c' = (j : String) → entry c' j ≡ (if str_eq k j then o else entry c j)

  pub set_lem :
      (k : String) (v : Value) (c : FastCache x)
      → is_plain v ≡ true
      → (c' : FastCache x) × (set h x k v none c ≡ (ok true, c'))
        × Becomes c k (some (sound.pickled v)) c'
  unfolding set inner ttl_or_none
  set_lem k v c plain =
      let (s', e, ls) = Pickled.Laws.set_lem sound x kept k v c.rust plain in
      (record c { rust = s' }, rw (e), ls)

  pub get_live :
      (k : String) (d v : Value) (c : FastCache x) (b : Bytes)
      → entry c k ≡ some b
      → h.loads b ≡ ok v
      → (c' : FastCache x) × (get_value h x k d c ≡ (ok v, c'))
        × ((j : String) → entry c' j ≡ entry c j)
  unfolding get_value get inner expires_at
  get_live k d v c b here reads =
      let (s', e, ls) = Pickled.Laws.get_live sound x kept k d v c.rust b here reads in
      (record c { rust = s' }, rw (e), ls)

  pub get_absent :
      (k : String) (d : Value) (c : FastCache x)
      → entry c k ≡ none
      → (c' : FastCache x) × (get_value h x k d c ≡ (ok d, c'))
        × ((j : String) → entry c' j ≡ entry c j)
  unfolding get_value get inner expires_at
  get_absent k d c gone =
      let (s', e, ls) = Pickled.Laws.get_absent sound x kept k d c.rust gone in
      (record c { rust = s' }, rw (e), ls)

  pub exists_lem :
      (k : String) (c : FastCache x)
      → (c' : FastCache x) × (exists h x k c ≡ (ok (is_some (entry c k)), c'))
        × ((j : String) → entry c' j ≡ entry c j)
  unfolding exists inner Pickled.exists
  exists_lem k c = let (s', e, ls) = kept.exists_ok c.rust k in (record c { rust = s' }, rw (e), ls)

  pub delete_lem :
      (k : String) (c : FastCache x)
      → (b : Bool) × (c' : FastCache x) × (delete h x k c ≡ (ok b, c')) × Becomes c k none c'
  unfolding delete inner Pickled.delete
  delete_lem k c =
      let (b, s', e, _, ls) = kept.delete_ok c.rust k in (b, record c { rust = s' }, rw (e), ls)

  -- On a key without an entry add returns True and a second add returns False and changes nothing.
  pub add_twice :
      (k : String) (v w : Value) (expire : Option ℤ) (c : FastCache x)
      → entry c k ≡ none
      → is_plain v ≡ true
      → (c' : FastCache x) × (c'' : FastCache x) × (add h x k v none c ≡ (ok true, c'))
        × (add h x k w expire c' ≡ (ok false, c''))
        × Becomes c k (some (sound.pickled v)) c''
  unfolding add
  add_twice k v w expire c gone plain =
      let (c₁, e₁, ls₁) = exists_lem k c in
      let (c₂, e₂, ls₂) = set_lem k v c₁ plain in
      let (c₃, e₃, ls₃) = exists_lem k c₂ in
      let here : entry c₂ k ≡ some (sound.pickled v) = ls₂ k ∙ rw (eq_refl k) in
      (c₂, c₃, rw (e₁, gone, e₂), rw (e₃, here), λ j. ls₃ j ∙ ls₂ j ∙ rw (ls₁ j))

  -- A pop of an entry returns its value and removes it and no other.
  pub pop_takes :
      (k : String) (v d : Value) (c : FastCache x)
      → is_plain v ≡ true
      → entry c k ≡ some (sound.pickled v)
      → (c' : FastCache x) × (pop h x k d c ≡ (ok v, c')) × Becomes c k none c'
  unfolding pop
  pop_takes k v d c plain here =
      let (c₁, e₁, ls₁) = get_live k d v c (sound.pickled v) here (sound.loads_pickled v plain) in
      let (c₂, e₂, ls₂) = exists_lem k c₁ in
      let (_, c₃, e₃, ls₃) = delete_lem k c₂ in
      let still : entry c₁ k ≡ some (sound.pickled v) = ls₁ k ∙ here in
      (c₃, rw (e₁, e₂, still, e₃), λ j. ls₃ j ∙ rw (ls₂ j, ls₁ j))

  module _ (plus : ℕ → ℤ → Option Value) where
    pub incr_live :
        (k : String) (i d : ℤ) (c : FastCache x)
        → entry c k ≡ some (sound.pickled (int i))
        → (c' : FastCache x) × (incr h x plus k d c ≡ (ok (int (i +ℤ d)), c'))
          × Becomes c k (some (sound.pickled (int (i +ℤ d)))) c'
    unfolding incr sum is_plain
    incr_live k i d c here =
        let (c₁, e₁, ls₁) =
          get_live k (int (pos 0)) (int i) c (sound.pickled (int i)) here
            (sound.loads_pickled (int i) refl) in
        let (c₂, e₂, ls₂) = set_lem k (int (i +ℤ d)) c₁ refl in
        (c₂, rw (e₁, e₂), λ j. ls₂ j ∙ rw (ls₁ j))

    pub incr_absent :
        (k : String) (d : ℤ) (c : FastCache x)
        → entry c k ≡ none
        → (c' : FastCache x) × (incr h x plus k d c ≡ (ok (int (pos 0 +ℤ d)), c'))
          × Becomes c k (some (sound.pickled (int (pos 0 +ℤ d)))) c'
    unfolding incr sum is_plain
    incr_absent k d c gone =
        let (c₁, e₁, ls₁) = get_absent k (int (pos 0)) c gone in
        let (c₂, e₂, ls₂) = set_lem k (int (pos 0 +ℤ d)) c₁ refl in
        (c₂, rw (e₁, e₂), λ j. ls₂ j ∙ rw (ls₁ j))

    -- `incr` by each number in turn
    abbrev pub incr_each : String → List ℤ → Exec (FastCache x) (Unit {0})
    incr_each k [] = pure tt
    incr_each k (d ∷ ds) = incr h x plus k d >> incr_each k ds

    incr_rest :
        (k : String) (i : ℤ) (ds : List ℤ) (c : FastCache x)
        → entry c k ≡ some (sound.pickled (int i))
        → (c' : FastCache x) × (incr_each k ds c ≡ (ok tt, c'))
          × Becomes c k (some (sound.pickled (int (foldl (λ a d. a +ℤ d) i ds)))) c'
    incr_rest k i [] c here = (
      c,
      refl,
      λ j. elim (Bool-cases (str_eq k j)) [
        | inl same ↦ let e : k ≡ j = (eq_iff k j).0 same in rw (same, ← e) here
        | inr other ↦ rw (other)
      ],
    )
    incr_rest k i (d ∷ ds) c here =
        let (c₁, e₁, ls₁) = incr_live k i d c here in
        let now : entry c₁ k ≡ some (sound.pickled (int (i +ℤ d))) = ls₁ k ∙ rw (eq_refl k) in
        let (c₂, e₂, ls₂) = incr_rest k (i +ℤ d) ds c₁ now in
        (c₂, rw (e₁, e₂), λ j. ls₂ j ∙ ground (arith, ls₁ j))

    -- Increments of a key without an entry leave their sum as its value.
    pub incr_total :
        (k : String) (d : ℤ) (ds : List ℤ) (c : FastCache x)
        → entry c k ≡ none
        → (c' : FastCache x) × (incr_each k (d ∷ ds) c ≡ (ok tt, c'))
          × Becomes c k (some (sound.pickled (int (foldl (λ a e. a +ℤ e) (pos 0) (d ∷ ds))))) c'
    incr_total k d ds c gone =
        let (c₁, e₁, ls₁) = incr_absent k d c gone in
        let now : entry c₁ k ≡ some (sound.pickled (int (pos 0 +ℤ d))) = ls₁ k ∙ rw (eq_refl k) in
        let (c₂, e₂, ls₂) = incr_rest k (pos 0 +ℤ d) ds c₁ now in
        (c₂, rw (e₁, e₂), λ j. ls₂ j ∙ ground (arith, ls₁ j))
