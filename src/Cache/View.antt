-- ===== src/Cache/View.antt =====
-- What a cache holds, as its readers see it: a map from keys to values.
use diskcache_rs.Base.{
  ◌⊎◌, String, ◌≡◌, refl, Bool, true, false, Option, none, some, arith, is_some, Bool-cases,
  Option-cases, inl, inr, if◌then◌else◌,
}
use diskcache_rs.Cache.Codec.{auto_deserialize}
use diskcache_rs.Cache.State.{Cache, ask}
use diskcache_rs.Cache.Read.{get_value, contains, get, decode_row, reply, wrap, part, missing}
use diskcache_rs.Dict
use diskcache_rs.Exec.{Result-cases, Result, ok, raised, Error, attribute_error, runtime_error}
use diskcache_rs.Host.{Host}
use diskcache_rs.Host.Sound.{IsSound}
use diskcache_rs.Value.{Value, Bytes}

abbrev pub result_value : {A : Type 0} → Result A → Option A
result_value (ok a) = some a
result_value (raised e) = none

abbrev pub get_or : {A : Type 0} → Option A → A → A
get_or none d = d
get_or (some a) d = a

-- the value that stored bytes stand for, where they can be read
unfoldable pub decoded : (h : Host) → Option Bytes → Option Value
decoded h none = none
decoded h (some d) = result_value (auto_deserialize h d)

module _ {h : Host} (sound : IsSound h) where
  -- the stored bytes of a key; a closed cache and a refused key have none
  unfoldable pub row : Cache h → String → Option Bytes
  row c k = elim c.rust [ none ↦ none | some s ↦ if sound.accepts k then sound.rows s k else none ]

  -- the value of a key, where its bytes can be read
  unfoldable pub view : Cache h → String → Option Value
  unfolding row decoded
  view c k = decoded h (row c k)

  pub view_lem : (c : Cache h) (k : String) → view c k ≡ decoded h (row c k)
  unfolding view
  view_lem c k = refl

  abbrev pub has : Cache h → String → Bool
  has c k = is_some (row c k)

  -- A read of a row raises, and then there is none, or returns it.
  read_row :
      (c : Cache h) (k : String)
      → ((e : Error) × (ask (λ s. h.get s k) c ≡ (raised e, c)) × (row c k ≡ none))
        ⊎ (ask (λ s. h.get s k) c ≡ (ok (row c k), c))
  unfolding row ask
  read_row c k = elim (Option-cases c.rust) [
    | inl closed ↦ inl (attribute_error, ground arith, ground arith)
    | inr (s, open_) ↦ elim (Bool-cases (sound.accepts k)) [
      | inl good ↦ inr (ground (arith, sound.get_row s k good))
      | inr bad ↦ inl (runtime_error, ground (arith, sound.get_refused s k bad), ground arith)
    ]
  ]

  -- A get without extras returns what the abstract map of the cache has at the key, or the
  -- default, on a cache in any state, and changes nothing.
  pub get_value-view :
      (c : Cache h) (k : String) (d : Value) → get_value h k d c ≡ (ok (get_or (view c k) d), c)
  unfolding get_value view
  get_value-view c k d = elim (read_row c k) [
    | inl (e, fails, gone) ↦ rw (fails, gone, view)
    | inr reads ↦ elim (Option-cases (row c k)) [
      | inl gone ↦ rw (reads, gone, view)
      | inr (content, found) ↦ rw (reads, found, view) (ground arith)
    ]
  ]

  -- A get of a key that has a value returns it, with what was asked for beside it.
  pub get_row_value :
      (c : Cache h) (k : String) (d v : Value) (expire_time tag : Bool)
      → view c k ≡ some v
      → get h k d false expire_time tag c ≡ (
        ok (record {
          value = v;
          expire_time = part expire_time (Dict.get c.expire_times k);
          tag = part tag (Dict.get c.tags k);
        }),
        c,
      )
  unfolding get view decoded decode_row reply wrap
  get_row_value c k d v expire_time tag here = elim (read_row c k) [
    | inl (e, fails, gone) ↦ absurd (ground (arith, gone))
    | inr reads ↦ elim (Option-cases (row c k)) [
      | inl gone ↦ absurd (ground arith)
      | inr (content, found) ↦ elim (Result-cases (auto_deserialize h content)) [
        | inl (w, good) ↦ let e : w ≡ v = ground arith in rw (reads, found, good, e)
        | inr (e, bad) ↦ absurd (ground arith)
      ]
    ]
  ]

  -- A get of a key without a row returns the default, with nothing beside it.
  pub get_row_none :
      (c : Cache h) (k : String) (d : Value) (expire_time tag : Bool)
      → has c k ≡ false
      → get h k d false expire_time tag c ≡ (ok (missing d expire_time tag), c)
  unfolding get decode_row
  get_row_none c k d expire_time tag free = elim (read_row c k) [
    | inl (e, fails, gone) ↦ rw (fails)
    | inr reads ↦ let gone : row c k ≡ none = ground arith in rw (reads, gone)
  ]

  -- `key in cache` tells whether the key has a row, and changes nothing.
  pub contains-has : (c : Cache h) (k : String) → contains h k c ≡ (ok (has c k), c)
  unfolding contains row ask
  contains-has c k = elim (Option-cases c.rust) [
    | inl closed ↦ ground arith
    | inr (s, open_) ↦ elim (Bool-cases (sound.accepts k)) [
      | inl good ↦ ground (arith, sound.exists_row s k good)
      | inr bad ↦ ground (arith, sound.exists_refused s k bad)
    ]
  ]

  pub has_of_view : (c : Cache h) (k : String) (v : Value) → view c k ≡ some v → has c k ≡ true
  unfolding view decoded
  has_of_view c k v here = elim (Option-cases (row c k)) [
    | inl gone ↦ absurd (ground arith)
    | inr (content, found) ↦ rw (found)
  ]
