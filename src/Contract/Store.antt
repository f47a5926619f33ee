-- ===== src/Contract/Store.antt =====
-- A `Cache` as a map: the entry of a key, and what each call makes of it.
use diskcache_rs.Base.{
  ℕ, String, ◌≡◌, refl, ◌∙◌, Bool, true, false, ◌&&◌, not, Option, none, some, is_some, arith, List,
  str_eq, eq_refl, Bool-cases, inl, inr, Option-cases,
}
use diskcache_rs.Base.Int.{ℤ, ◌+ℤ◌}
use diskcache_rs.Cache.Laws.{
  ready, IsWrite, IsErase, store_writes, set_refused, plain_int, readings,
}
use diskcache_rs.Cache.Laws.Erase.{delete_erases, delete_refused}
use diskcache_rs.Cache.Read
use diskcache_rs.Cache.Read.{missing}
use diskcache_rs.Cache.Remove
use diskcache_rs.Cache.Remove.{delete}
use diskcache_rs.Cache.State.{Cache}
use diskcache_rs.Cache.Update
use diskcache_rs.Cache.Update.{counted, from_default}
use diskcache_rs.Cache.View.{view, has, row, get_or, get_value-view, contains-has}
use diskcache_rs.Cache.Write.{set, read_file}
use diskcache_rs.Contract.Calls.{Call, key_of, is_safe, step, answer, put_if, next_count}
use diskcache_rs.Contract.{Acts, every, run, perform, run_lem}
use diskcache_rs.Exec.{Result-cases, ok}
use diskcache_rs.Host.{Host}
use diskcache_rs.Host.Sound.{IsSound}
use diskcache_rs.Value.{Value, null, int, is_plain, is_null}

module _ {h : Host} (sound : IsSound h) (takes : String → Bool) where
  -- The cache has the entry at the key and can read it; it writes the keys of `takes`.
  pub record Entry (c : Cache h) (k : String) (o : Option Value) : Type 0 where
    pub reads_as : view sound c k ≡ o
    pub present : has sound c k ≡ is_some o
    pub writable : ready sound c k ≡ takes k
    pub plain : is_plain (get_or o null) ≡ true

  -- what the entries of the other keys are
  abbrev pub Others : Cache h → String → Cache h → Type 0
  Others c k c' = (j : String) (p : Option Value) → str_eq k j ≡ false → Entry c j p → Entry c' j p

  IsWrite-Entry :
      (c c' : Cache h) (k : String) (v : Value)
      → IsWrite sound c k v c'
      → ready sound c k ≡ takes k
      → is_plain v ≡ true
      → Entry c' k (some v) × Others c k c'
  IsWrite-Entry c c' k v w can plain = (
    record {
      reads_as = w.views k ∙ rw (eq_refl k);
      present = w.rows k ∙ rw (eq_refl k);
      writable = w.opens k ∙ can;
      plain = plain;
    },
    λ j p other q. record {
      reads_as = w.views j ∙ rw (other) q.reads_as;
      present = w.rows j ∙ rw (other) q.present;
      writable = w.opens j ∙ q.writable;
      plain = q.plain;
    },
  )

  IsErase-Entry :
      (c c' : Cache h) (k : String)
      → IsErase sound c k c'
      → ready sound c k ≡ takes k
      → Entry c' k none × Others c k c'
  unfolding is_plain
  IsErase-Entry c c' k w can = (
    record {
      reads_as = w.views k ∙ rw (eq_refl k);
      present = w.rows k ∙ rw (eq_refl k);
      writable = w.opens k ∙ can;
      plain = refl;
    },
    λ j p other q. record {
      reads_as = w.views j ∙ rw (other) q.reads_as;
      present = w.rows j ∙ rw (other) q.present;
      writable = w.opens j ∙ q.writable;
      plain = q.plain;
    },
  )

  -- readings of the clock change no entry
  reads-Entry :
      (c : Cache h) (n : ℕ) (k : String) (o : Option Value)
      → Entry c k o
      → Entry (record c { reads = n }) k o
  unfolding view row ready
  reads-Entry c n k o at = record {
    reads_as = at.reads_as;
    present = at.present;
    writable = at.writable;
    plain = at.plain;
  }

  -- A set writes a key that is taken and leaves any other alone.
  set-Entry :
      (k : String) (v : Value) (e : Option ℕ) (t : Option String) (c : Cache h) (o : Option Value)
      → is_plain v ≡ true
      → Entry c k o
      → (c' : Cache h) × (set h k v e false t c ≡ (ok (takes k), c'))
        × Entry c' k (put_if (takes k) v o)
        × Others c k c'
  unfolding read_file
  set-Entry k v e t c o plain at = elim (Bool-cases (takes k)) [
    | inl can ↦
        let (c', e', w) = store_writes sound k v e t c (at.writable ∙ can) plain in
        let (at', others) = IsWrite-Entry c c' k v w at.writable plain in
        (c', rw (can) e', rw (can) at', others)
    | inr cannot ↦
        let e' = set_refused sound k v e false t c (at.writable ∙ cannot) plain in
        (
          record c { reads = readings h e c.reads },
          rw (cannot) e',
          rw (cannot) (reads-Entry c _ k o at),
          λ j p other q. reads-Entry c _ j p q,
        )
  ]

  stays : (c : Cache h) (k : String) → Others c k c
  stays c k j p other q = q

  -- Only a key that is taken has an entry.
  taken : (c : Cache h) (k : String) (v : Value) → Entry c k (some v) → ready sound c k ≡ true
  unfolding ready view
  taken c k v at = ground (arith, at.reads_as)

  exists-has : (c : Cache h) (k : String) → Read.exists h k c ≡ (ok (has sound c k), c)
  unfolding Read.exists Read.contains
  exists-has c k = contains-has sound c k

  -- A key with a row is there, whatever its value.
  present_lem : (v : Value) → is_null v && not true ≡ false
  present_lem v = ground arith

  delete-Entry :
      (k : String) (c : Cache h) (o : Option Value)
      → Entry c k o
      → (c' : Cache h) × (delete h k c ≡ (ok (is_some o), c')) × Entry c' k none × Others c k c'
  delete-Entry k c (some v) at =
      let (c', e, w) = delete_erases sound k c (taken c k v at) in
      let (at', others) = IsErase-Entry c c' k w at.writable in
      (c', rw (e, at.present), at', others)
  delete-Entry k c none at = elim (Bool-cases (ready sound c k)) [
    | inl can ↦
        let (c', e, w) = delete_erases sound k c can in
        let (at', others) = IsErase-Entry c c' k w at.writable in
        (c', rw (e, at.present), at', others)
    | inr cannot ↦ (c, delete_refused sound k c cannot, at, stays c k)
  ]

  -- what a call makes of a cache with an entry
  abbrev Outcome : Call → Cache h → Option Value → Type 0
  Outcome call c o =
      (c' : Cache h) × (step h call c ≡ ((answer h takes call o).0, c'))
      × Entry c' (key_of call) (answer h takes call o).1
      × Others c (key_of call) c'

  add-Outcome :
      (k : String) (v : Value) (e : Option ℕ) (t : Option String) (c : Cache h) (o : Option Value)
      → is_plain v ≡ true
      → Entry c k o
      → Outcome (Call.add k v e t) c o
  unfolding step answer key_of Update.add
  add-Outcome k v e t c none plain at =
      let (c', e', at', others) = set-Entry k v e t c none plain at in
      (c', rw (contains-has sound c k, at.present, e'), at', others)
  add-Outcome k v e t c (some w) plain at =
      (c, rw (contains-has sound c k, at.present), at, stays c k)

  get_item-Outcome :
      (k : String) (c : Cache h) (o : Option Value) → Entry c k o → Outcome (Call.get_item k) c o
  unfolding step answer key_of Read.get_item Read.exists Read.contains
  get_item-Outcome k c none at = (
    c,
    rw (get_value-view sound c k null, at.reads_as, exists-has c k, at.present),
    at,
    stays c k,
  )
  get_item-Outcome k c (some w) at = (
    c,
    rw (get_value-view sound c k null, at.reads_as, exists-has c k, at.present, present_lem w),
    at,
    stays c k,
  )

  pop-Outcome :
      (k : String) (d : Value) (c : Cache h) (o : Option Value)
      → Entry c k o
      → Outcome (Call.pop k d) c o
  unfolding step answer key_of Remove.pop missing
  pop-Outcome k d c none at = (
    c,
    rw (get_value-view sound c k null, at.reads_as, contains-has sound c k, at.present),
    at,
    stays c k,
  )
  pop-Outcome k d c (some w) at =
      let (c', e, at', others) = delete-Entry k c (some w) at in
      (
        c',
        rw (
          get_value-view sound c k null,
          at.reads_as,
          contains-has sound c k,
          at.present,
          present_lem w,
          e,
        ),
        at',
        others,
      )

  delete_item-Outcome :
      (k : String) (c : Cache h) (o : Option Value) → Entry c k o → Outcome (Call.delete_item k) c o
  unfolding step answer key_of Remove.delete_item
  delete_item-Outcome k c none at =
      let (c', e, at', others) = delete-Entry k c none at in (c', rw (e), at', others)
  delete_item-Outcome k c (some w) at =
      let (c', e, at', others) = delete-Entry k c (some w) at in (c', rw (e), at', others)

  touch-Outcome :
      (k : String) (e : Option ℕ) (c : Cache h) (o : Option Value)
      → Entry c k o
      → Outcome (Call.touch k e) c o
  unfolding step answer key_of Update.touch
  touch-Outcome k e c none at = (c, rw (contains-has sound c k, at.present), at, stays c k)
  touch-Outcome k e c (some w) at = elim (Bool-cases (is_null w)) [
    | inl empty ↦ (
      c,
      rw (contains-has sound c k, at.present, get_value-view sound c k null, at.reads_as, empty),
      at,
      stays c k,
    )
    | inr full ↦
        let (c', e', at', others) = set-Entry k w e none c (some w) at.plain at in
        let same : put_if (takes k) w (some w) ≡ some w = ground arith in
        (
          c',
          rw (
            contains-has sound c k,
            at.present,
            get_value-view sound c k null,
            at.reads_as,
            full,
            e',
          ),
          rw (← same) at',
          others,
        )
  ]

  incr-Outcome :
      (k : String) (n : ℤ) (d : Option ℤ) (c : Cache h) (o : Option Value)
      → Entry c k o
      → Outcome (Call.incr k n d) c o
  unfolding step answer key_of next_count Update.incr Update.recover from_default
  incr-Outcome k n d c o at = elim (Result-cases (counted h (get_or o null) n d)) [
    | inl (i, counts) ↦
        let (c', e', at', others) = set-Entry k (int i) none none c o (plain_int sound i) at in
        (c', rw (get_value-view sound c k null, at.reads_as, counts, e'), rw (counts) at', others)
    | inr (e, fails) ↦ elim (Option-cases d) [
      | inl without ↦ (
        c,
        rw (get_value-view sound c k null, at.reads_as, fails, without),
        rw (fails, without) at,
        stays c k,
      )
      | inr (i, given) ↦
          let (c', e', at', others) =
            set-Entry k (int (i +ℤ n)) none none c o (plain_int sound (i +ℤ n)) at in
          (
            c',
            rw (get_value-view sound c k null, at.reads_as, fails, given, e'),
            rw (fails, given) at',
            others,
          )
    ]
  ]

  outcome :
      (call : Call) (c : Cache h) (o : Option Value)
      → is_safe call ≡ true
      → Entry c (key_of call) o
      → Outcome call c o
  unfolding is_safe step answer key_of
  outcome (Call.set k v e t) c o plain at =
      let (c', e', at', others) = set-Entry k v e t c o plain at in (c', rw (e'), at', others)
  outcome (Call.add k v e t) c o plain at = add-Outcome k v e t c o plain at
  outcome (Call.get k d) c o plain at =
      (c, rw (get_value-view sound c k d, at.reads_as), at, stays c k)
  outcome (Call.get_item k) c o plain at = get_item-Outcome k c o at
  outcome (Call.contains k) c o plain at =
      (c, rw (contains-has sound c k, at.present), at, stays c k)
  outcome (Call.pop k d) c o plain at = pop-Outcome k d c o at
  outcome (Call.delete k) c o plain at =
      let (c', e', at', others) = delete-Entry k c o at in (c', rw (e'), at', others)
  outcome (Call.delete_item k) c o plain at = delete_item-Outcome k c o at
  outcome (Call.incr k n d) c o plain at = incr-Outcome k n d c o at
  outcome (Call.touch k e) c o plain at = touch-Outcome k e c o at

  -- Each call of a cache does with the entry of its key what it does on a map, and leaves others.
  pub Cache-Acts : Acts key_of (answer h takes) is_safe (step h) Entry
  Cache-Acts = record { acts = outcome }

  -- the cache holds what the map has
  abbrev pub Represents : Cache h → (String → Option Value) → Type 0
  Represents c m = (k : String) → Entry c k (m k)

  -- If a cache has what a map has at every key, can read it, and writes the keys that the map
  -- takes, then any list of calls of set, add, get, [], in, pop, delete, del, incr and touch that
  -- write none but plain values returns and raises, call by call, what the map answers, and the
  -- cache it leaves has what the map has then.
  pub trace :
      (calls : List Call) (m : String → Option Value) (c : Cache h)
      → every is_safe calls ≡ true
      → Represents c m
      → (c' : Cache h) × (run (step h) calls c
          ≡ ((run (perform key_of (answer h takes)) calls m).0, c'))
        × Represents c' (run (perform key_of (answer h takes)) calls m).1
  trace = run_lem key_of (answer h takes) Cache-Acts
