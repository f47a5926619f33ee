-- ===== src/Contract/Quick/Entry.antt =====
-- What each call of a `FastCache` makes of the entry of its key.
use mathlib.Core.Option
use diskcache_rs.Base.{
  String, ◌≡◌, refl, ◌∙◌, Bool, true, false, ◌&&◌, Option, none, some, is_some, arith, str_eq,
  eq_refl, Bool-cases, inl, inr,
}
use diskcache_rs.Cache.View.{get_or}
use diskcache_rs.Contract.{Acts}
use diskcache_rs.Contract.Calls.{Answer, key_of, is_safe, answer}
use diskcache_rs.Exec.{Result, ok}
use diskcache_rs.Fast
use diskcache_rs.Fast.{FastCache}
use diskcache_rs.Fast.Laws.{entry, Becomes, set_lem, get_live, get_absent, exists_lem, delete_lem}
use diskcache_rs.Host.{Host}
use diskcache_rs.Host.Sound.{IsSound}
use diskcache_rs.Pickled.Backend.{Pickles, IsKept}
use diskcache_rs.Value.{Value, null, is_plain, is_null}
use diskcache_rs.Contract.Quick.{Basic, as_call, fast_step}

module _ {h : Host} (sound : IsSound h) (x : Pickles) (kept : IsKept x) where
  -- The cache has the pickle of a plain value at the key, or nothing.
  pub record FastEntry (c : FastCache x) (k : String) (o : Option Value) : Type 0 where
    pub bytes_are : entry sound x kept c k ≡ Option.map sound.pickled o
    pub plain : is_plain (get_or o null) ≡ true

  abbrev Others : FastCache x → String → FastCache x → Type 0
  Others c k c' =
      (j : String) (p : Option Value) → str_eq k j ≡ false → FastEntry c j p → FastEntry c' j p

  same-FastEntry :
      (c c' : FastCache x) (k : String) (o : Option Value)
      → ((j : String) → entry sound x kept c' j ≡ entry sound x kept c j)
      → FastEntry c k o
      → FastEntry c' k o
  same-FastEntry c c' k o same at = record { bytes_are = same k ∙ at.bytes_are; plain = at.plain }

  Becomes-FastEntry :
      (c c' : FastCache x) (k : String) (o : Option Value)
      → Becomes sound x kept c k (Option.map sound.pickled o) c'
      → is_plain (get_or o null) ≡ true
      → FastEntry c' k o × Others c k c'
  Becomes-FastEntry c c' k o ls plain = (
    record { bytes_are = ls k ∙ rw (eq_refl k); plain = plain },
    λ j p other q. record { bytes_are = ls j ∙ rw (other) q.bytes_are; plain = q.plain },
  )

  -- a call that only reads the entries
  kept_all :
      (c c' : FastCache x) (k : String) (o : Option Value)
      → ((j : String) → entry sound x kept c' j ≡ entry sound x kept c j)
      → FastEntry c k o
      → FastEntry c' k o × Others c k c'
  kept_all c c' k o ls at =
      (same-FastEntry c c' k o ls at, λ j p other q. same-FastEntry c c' j p ls q)

  put-FastEntry :
      (k : String) (v : Value) (c : FastCache x)
      → is_plain v ≡ true
      → (c' : FastCache x) × (Fast.set h x k v none c ≡ (ok true, c'))
        × FastEntry c' k (some v)
        × Others c k c'
  put-FastEntry k v c plain =
      let (c', e, ls) = set_lem sound x kept k v c plain in
      let (at', others) = Becomes-FastEntry c c' k (some v) ls plain in (c', e, at', others)

  -- a read with a default
  read-FastEntry :
      (k : String) (d : Value) (c : FastCache x) (o : Option Value)
      → FastEntry c k o
      → (c' : FastCache x) × (Fast.get_value h x k d c ≡ (ok (get_or o d), c'))
        × ((j : String) → entry sound x kept c' j ≡ entry sound x kept c j)
  read-FastEntry k d c none at = get_absent sound x kept k d c at.bytes_are
  read-FastEntry k d c (some v) at =
      get_live sound x kept k d v c (sound.pickled v) at.bytes_are (sound.loads_pickled v at.plain)

  has-FastEntry :
      (k : String) (c : FastCache x) (o : Option Value)
      → FastEntry c k o
      → (c' : FastCache x) × (Fast.exists h x k c ≡ (ok (is_some o), c'))
        × ((j : String) → entry sound x kept c' j ≡ entry sound x kept c j)
  has-FastEntry k c none at =
      let (c', e, ls) = exists_lem sound x kept k c in (c', e ∙ rw (at.bytes_are), ls)
  has-FastEntry k c (some v) at =
      let (c', e, ls) = exists_lem sound x kept k c in (c', e ∙ rw (at.bytes_are), ls)

  module _ (takes : String → Bool) where
    -- a call that writes none but a plain value, at a key that is taken
    abbrev pub is_basic : Basic → Bool
    is_basic c = takes (key_of (as_call c)) && is_safe (as_call c)

    abbrev basic_key : Basic → String
    basic_key c = key_of (as_call c)

    abbrev basic_answer : Basic → Option Value → Result Answer × Option Value
    basic_answer c = answer h takes (as_call c)

    -- what a call makes of a cache with an entry
    abbrev Outcome : Basic → FastCache x → Option Value → Type 0
    Outcome call c o =
        (c' : FastCache x) × (fast_step h x call c ≡ ((basic_answer call o).0, c'))
        × FastEntry c' (basic_key call) (basic_answer call o).1
        × Others c (basic_key call) c'

    add-Outcome :
        (k : String) (v : Value) (c : FastCache x) (o : Option Value)
        → is_basic (Basic.add k v) ≡ true
        → FastEntry c k o
        → Outcome (Basic.add k v) c o
    unfolding as_call is_safe key_of fast_step answer Fast.add
    add-Outcome k v c none good at =
        let can : takes k ≡ true = ground arith in
        let (c₁, e₁, ls₁) = has-FastEntry k c none at in
        let (c', e, at', others) = put-FastEntry k v c₁ (ground arith) in
        (
          c',
          rw (e₁, e, can),
          rw (can) at',
          λ j p other q. others j p other (same-FastEntry c c₁ j p ls₁ q),
        )
    add-Outcome k v c (some w) good at =
        let (c₁, e₁, ls₁) = has-FastEntry k c (some w) at in
        (c₁, rw (e₁), (kept_all c c₁ k _ ls₁ at).0, (kept_all c c₁ k _ ls₁ at).1)

    get_item-Outcome :
        (k : String) (c : FastCache x) (o : Option Value)
        → FastEntry c k o
        → Outcome (Basic.get_item k) c o
    unfolding as_call key_of fast_step answer Fast.get_item
    get_item-Outcome k c none at =
        let (c₁, e₁, ls₁) = read-FastEntry k null c none at in
        let at₁ = same-FastEntry c c₁ k none ls₁ at in
        let (c₂, e₂, ls₂) = has-FastEntry k c₁ none at₁ in
        let ls = λ (j : String). ls₂ j ∙ ls₁ j in
        (c₂, rw (e₁, e₂), (kept_all c c₂ k _ ls at).0, (kept_all c c₂ k _ ls at).1)
    get_item-Outcome k c (some w) at =
        let (c₁, e₁, ls₁) = read-FastEntry k null c (some w) at in
        let at₁ = same-FastEntry c c₁ k (some w) ls₁ at in
        elim (Bool-cases (is_null w)) [
          | inr full ↦ (c₁, rw (e₁, full), at₁, λ j p other q. same-FastEntry c c₁ j p ls₁ q)
          | inl empty ↦
              let (c₂, e₂, ls₂) = has-FastEntry k c₁ (some w) at₁ in
              let ls = λ (j : String). ls₂ j ∙ ls₁ j in
              (c₂, rw (e₁, empty, e₂), (kept_all c c₂ k _ ls at).0, (kept_all c c₂ k _ ls at).1)
        ]

    pop-Outcome :
        (k : String) (d : Value) (c : FastCache x) (o : Option Value)
        → FastEntry c k o
        → Outcome (Basic.pop k d) c o
    unfolding as_call key_of fast_step answer Fast.pop is_plain
    pop-Outcome k d c none at =
        let (c₁, e₁, ls₁) = read-FastEntry k d c none at in
        let at₁ = same-FastEntry c c₁ k none ls₁ at in
        let (c₂, e₂, ls₂) = has-FastEntry k c₁ none at₁ in
        let ls = λ (j : String). ls₂ j ∙ ls₁ j in
        (c₂, rw (e₁, e₂), (kept_all c c₂ k _ ls at).0, (kept_all c c₂ k _ ls at).1)
    pop-Outcome k d c (some w) at =
        let (c₁, e₁, ls₁) = read-FastEntry k d c (some w) at in
        let at₁ = same-FastEntry c c₁ k (some w) ls₁ at in
        let (c₂, e₂, ls₂) = has-FastEntry k c₁ (some w) at₁ in
        let ls = λ (j : String). ls₂ j ∙ ls₁ j in
        let (b, c₃, e₃, ls₃) = delete_lem sound x kept k c₂ in
        let (at', others) = Becomes-FastEntry c₂ c₃ k none ls₃ refl in
        (c₃, rw (e₁, e₂, e₃), at', λ j p other q. others j p other (same-FastEntry c c₂ j p ls q))

    outcome :
        (call : Basic) (c : FastCache x) (o : Option Value)
        → is_basic call ≡ true
        → FastEntry c (basic_key call) o
        → Outcome call c o
    unfolding as_call is_safe key_of fast_step answer
    outcome (Basic.set k v) c o good at =
        let can : takes k ≡ true = ground arith in
        let (c', e, at', others) = put-FastEntry k v c (ground arith) in
        (c', rw (e, can), rw (can) at', others)
    outcome (Basic.add k v) c o good at = add-Outcome k v c o good at
    outcome (Basic.get k d) c o good at =
        let (c₁, e₁, ls₁) = read-FastEntry k d c o at in
        (c₁, rw (e₁), (kept_all c c₁ k _ ls₁ at).0, (kept_all c c₁ k _ ls₁ at).1)
    outcome (Basic.get_item k) c o good at = get_item-Outcome k c o at
    outcome (Basic.contains k) c o good at =
        let (c₁, e₁, ls₁) = has-FastEntry k c o at in
        (c₁, rw (e₁), (kept_all c c₁ k _ ls₁ at).0, (kept_all c c₁ k _ ls₁ at).1)
    outcome (Basic.pop k d) c o good at = pop-Outcome k d c o at

    pub Fast-Acts : Acts basic_key basic_answer is_basic (fast_step h x) FastEntry
    Fast-Acts = record { acts = outcome }
