-- ===== src/Cache/Laws/Picked.antt =====
-- The keys of a dict whose values pass a test, which the loops of `expire` and `evict` run over.
use diskcache_rs.Base.{
  String, ◌≡◌, refl, sym, ◌∙◌, Bool, true, false, ◌||◌, ◌&&◌, not, Option, none, some, arith,
  is_some, Bool-cases, inl, inr, str_eq, eq_iff, List, [], ◌∷◌, if◌then◌else◌,
}
use diskcache_rs.Dict
use diskcache_rs.Dict.{Dict}

unfoldable pub is_in : String → List String → Bool
is_in j [] = false
is_in j (k ∷ ks) = str_eq k j || is_in j ks

module _ {V : Type 0} where
  -- no key twice, as in every Python dict
  unfoldable pub distinct : Dict V → Bool
  distinct [] = true
  distinct ((k, v) ∷ d) = not (is_some (Dict.get d k)) && distinct d

  unfoldable pub picked : (V → Bool) → Dict V → List String
  picked f [] = []
  picked f ((k, v) ∷ d) = let rest = picked f d in if f v then k ∷ rest else rest

  -- a value that is there and passes the test
  abbrev pub passes : (V → Bool) → Option V → Bool
  passes f none = false
  passes f (some v) = f v

  picked-absent :
      (f : V → Bool) (d : Dict V) (j : String) → Dict.get d j ≡ none → is_in j (picked f d) ≡ false
  unfolding Dict.get is_in picked
  picked-absent f [] j e = refl
  picked-absent f ((k, v) ∷ d) j e = elim (Bool-cases (str_eq k j)) [
    | inl same ↦ absurd (ground (arith, e, same))
    | inr other ↦ elim (Bool-cases (f v)) [
      | inl hit ↦ rw (hit, other) (picked-absent f d j (ground (arith, e, other)))
      | inr miss ↦ rw miss (picked-absent f d j (ground (arith, e, other)))
    ]
  ]

  pub picked-passes :
      (f : V → Bool) (d : Dict V) (j : String)
      → distinct d ≡ true
      → is_in j (picked f d) ≡ passes f (Dict.get d j)
  unfolding Dict.get is_in picked distinct
  picked-passes f [] j u = refl
  picked-passes f ((k, v) ∷ d) j u =
      let rest = picked-passes f d j (ground (arith, u)) in
      elim (Bool-cases (str_eq k j)) [
        | inl same ↦
            let e : k ≡ j = (eq_iff k j).0 same in
            let gone : Dict.get d k ≡ none = ground (arith, u) in
            let gone' : Dict.get d j ≡ none = rw (← e) gone in
            elim (Bool-cases (f v)) [
              | inl hit ↦ rw (hit, same) (sym hit)
              | inr miss ↦ rw (miss, same) (picked-absent f d j gone' ∙ sym miss)
            ]
        | inr other ↦ elim (Bool-cases (f v)) [
          | inl hit ↦ rw (hit, other) rest
          | inr miss ↦ rw (miss, other) rest
        ]
      ]
