-- ===== src/Cache/Listing/Ordered.antt =====
-- The order in which `iterkeys` yields the keys of a cache.
use mathlib.Core.List.{Perm, foldr}
use mathlib.Core.HLevel.{hedberg}
use mathlib.Core.List.Perm
use diskcache_rs.Base.{
  String, ◌≡◌, refl, sym, ap, ◌∙◌, Bool, true, List, [], ◌∷◌, arith, some, str_eq, eq_iff,
  Bool-cases, inl, inr, if◌then◌else◌, reverse,
}
use diskcache_rs.Cache.Listing.{insert, sorted, iterkeys}
use diskcache_rs.Cache.Read
use diskcache_rs.Cache.State.{Cache, ask_open}
use diskcache_rs.Exec.{ok}
use diskcache_rs.Host.{Host}
use diskcache_rs.Host.Sound.{IsSound}
use diskcache_rs.Text.Order.{str_leb, str_leb_total, str_leb_trans, str_leb_antisym}

-- each text comes no later than the next
unfoldable pub IsSorted : List String → Type 0
IsSorted [] = Unit {0}
IsSorted (k ∷ []) = Unit {0}
IsSorted (k ∷ j ∷ ks) = (str_leb k j ≡ true) × IsSorted (j ∷ ks)

-- a text before a sorted list
before :
    (k j : String) (ks : List String)
    → str_leb k j ≡ true
    → IsSorted (j ∷ ks)
    → IsSorted (k ∷ j ∷ ks)
unfolding IsSorted
before k j ks le s = (le, s)

insert-IsSorted : (k : String) (ks : List String) → IsSorted ks → IsSorted (insert k ks)
unfolding insert IsSorted
insert-IsSorted k [] s = tt
insert-IsSorted k (j ∷ []) s = elim (Bool-cases (str_leb k j)) [
  | inl le ↦ rw (le) (le, tt)
  | inr gt ↦ rw (gt) (str_leb_total k j gt, tt)
]
insert-IsSorted k (j ∷ i ∷ ks) (le, s) = elim (Bool-cases (str_leb k j)) [
  | inl first ↦ rw (first) (first, (le, s))
  | inr later ↦ elim (Bool-cases (str_leb k i)) [
    | inl next ↦ rw (later, next) (str_leb_total k j later, (next, s))
    | inr last ↦ rw (later, last) (le, rw (last) at (insert-IsSorted k (i ∷ ks) s))
  ]
]

sorted-IsSorted : (ks : List String) → IsSorted (sorted ks)
unfolding sorted IsSorted
sorted-IsSorted [] = tt
sorted-IsSorted (k ∷ ks) = insert-IsSorted k (sorted ks) (sorted-IsSorted ks)

insert-Perm : (k : String) (ks : List String) → Perm (insert k ks) (k ∷ ks)
unfolding insert
insert-Perm k [] = Perm.rfl
insert-Perm k (j ∷ ks) = elim (Bool-cases (str_leb k j)) [
  | inl first ↦ rw (first) Perm.rfl
  | inr later ↦ rw (later) (Perm.trans (Perm.cons j (insert-Perm k ks)) (Perm.swap k j ks))
]

sorted-Perm : (ks : List String) → Perm (sorted ks) ks
unfolding sorted
sorted-Perm [] = Perm.rfl
sorted-Perm (k ∷ ks) = Perm.trans (insert-Perm k (sorted ks)) (Perm.cons k (sorted-Perm ks))

insert_comm : (a b : String) (ks : List String) → insert a (insert b ks) ≡ insert b (insert a ks)
unfolding insert
insert_comm a b [] = elim (Bool-cases (str_leb a b)) [
  | inl ab ↦ elim (Bool-cases (str_leb b a)) [
    | inl ba ↦ let e : a ≡ b = str_leb_antisym a b ab ba in rw (e)
    | inr nba ↦ rw (ab, nba)
  ]
  | inr nab ↦ rw (nab, str_leb_total a b nab)
]
insert_comm a b (k ∷ ks) = ground (
  arith,
  insert_comm a b ks,
  str_leb_total a b,
  str_leb_total b a,
  str_leb_trans a b k,
  str_leb_trans b a k,
  str_leb_antisym a b,
)

same_text : (s t : String) → Dec (s ≡ t)
same_text s t = elim (Bool-cases (str_eq s t)) [
  | inl same ↦ yes ((eq_iff s t).0 same)
  | inr other ↦ no (λ e. absurd (ground (arith, (eq_iff s t).1 e)))
]

text_set : IsSet String
text_set = hedberg same_text

strings_set : IsSet (List String)
strings_set = hlevel (text_set)

sorted-foldr : (ks : List String) → sorted ks ≡ foldr insert [] ks
unfolding sorted
sorted-foldr [] = refl
sorted-foldr (k ∷ ks) = ap (insert k) (sorted-foldr ks)

-- The same keys in another order are sorted alike.
pub sorted-eq : (ks js : List String) → Perm ks js → sorted ks ≡ sorted js
sorted-eq ks js p =
    sorted-foldr ks ∙ Perm.foldr-eq strings_set insert insert_comm p [] ∙ sym (sorted-foldr js)

module _ {h : Host} (sound : IsSound h) where
  -- On an open cache iterkeys yields the keys that the extension module lists, each as often, in
  -- ascending order, or with reverse in the opposite order, and changes nothing.
  pub iterkeys_lem :
      (backwards : Bool) (c : Cache h) (s : h.State)
      → c.rust ≡ some s
      → (ks : List String) × (iterkeys h backwards c
          ≡ (ok (if backwards then reverse ks else ks), c))
        × IsSorted ks
        × Perm ks (sound.names s)
  unfolding iterkeys Read.keys
  iterkeys_lem backwards c s open_ = (
    sorted (sound.names s),
    rw (ask_open (λ s. h.keys s) c s (ok (sound.names s)) open_ (sound.keys_names s)),
    sorted-IsSorted (sound.names s),
    sorted-Perm (sound.names s),
  )
