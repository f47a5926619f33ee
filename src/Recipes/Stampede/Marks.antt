-- ===== src/Recipes/Stampede/Marks.antt =====
-- What a call under `memoize_stampede`, and the thread that it starts, make of the mark that says
-- that a thread has been started.
use diskcache_rs.Base.{
  ℕ, ◌+◌, String, ◌≡◌, refl, ◌∙◌, ap, Bool, true, false, ◌&&◌, Option, none, some, List, Bool-cases,
  Option-cases, inl, inr, ◌⊎◌, is_some, str_eq, eq_refl,
}
use diskcache_rs.Base.Int.{pos, ◌-ℤ◌, pos_part, ltb_ℤ}
use diskcache_rs.Cache.Codec.{auto_deserialize}
use diskcache_rs.Cache.Laws.{ready, store_writes, set_refused, readings}
use diskcache_rs.Cache.Laws.Apart.{set_apart}
use diskcache_rs.Cache.Read.{Reply, get, missing, decode_row, wrap, reply}
use diskcache_rs.Cache.State.{Cache, time, ask}
use diskcache_rs.Cache.Update.{add}
use diskcache_rs.Cache.Write.{set, read_file}
use diskcache_rs.Cache.View.{row, has, contains-has}
use diskcache_rs.Dict
use diskcache_rs.Exec.{Exec, Result, Result-cases, ok, raised}
use diskcache_rs.Host.{Host}
use diskcache_rs.Host.Sound.{IsSound}
use diskcache_rs.Recipes.Stampede.{
  Options, is_eno, two_of, cache_key, thread_key, timer, time_left, recompute, hit, miss, wrapper,
}
use diskcache_rs.Value.{Value, null, int, pair, other, is_plain}

-- the result of a call that may have started a thread
abbrev pub started : Result (Value × Bool) → Bool
started (ok (v, b)) = b
started (raised e) = false

module _ {h : Host} (sound : IsSound h) (o : Options) (raw_key : List Value) where
  abbrev pub mark : String
  mark = thread_key o raw_key

  abbrev pub marked : Cache h → Bool
  marked c = has sound c mark

  -- A function that leaves the mark alone, whatever else it does.
  abbrev pub Leaves : Exec (Cache h) Value → Type 0
  Leaves func = (c : Cache h) → marked (func c).1 ≡ marked c

module _ {h : Host} (sound : IsSound h) (o : Options) (raw_key : List Value)
    (apart : str_eq (cache_key o raw_key) (thread_key o raw_key) ≡ false) where
  -- what is stored under the key of the result leaves the mark alone
  marked-set :
      (v : Value) (c : Cache h)
      → (b : Bool) × (c' : Cache h) × (set h (cache_key o raw_key) v (some o.expire) false o.tag c
          ≡ (ok b, c'))
        × (marked sound o raw_key c' ≡ marked sound o raw_key c)
  marked-set v c =
      let (b, c', e, same) =
        set_apart sound (cache_key o raw_key) v (some o.expire) false o.tag c (thread_key o raw_key)
          apart in
      (b, c', e, ap is_some same)

  -- the cache that the function is called on
  abbrev later_on : Cache h → Cache h
  later_on c = record c { reads = c.reads + 1 }

  -- the result with the time that it took
  abbrev timed : Exec (Cache h) Value → Cache h → Value → Value
  timed func c v = pair v (int (pos (h.clock (func (later_on c)).1.reads) -ℤ pos (h.clock c.reads)))

  -- the store of a result that the function returned
  marked-timed :
      (func : Exec (Cache h) Value) (c : Cache h) (v : Value)
      → Leaves sound o raw_key func
      → (b : Bool) × (c' : Cache h) × (set h
            (cache_key o raw_key)
            (timed func c v)
            (some o.expire)
            false
            o.tag
            (later_on (func (later_on c)).1)
          ≡ (ok b, c'))
        × (marked sound o raw_key c' ≡ marked sound o raw_key c)
  unfolding row
  marked-timed func c v leaves =
      let (b, c', e, same) = marked-set (timed func c v) (later_on (func (later_on c)).1) in
      (b, c', e, same ∙ leaves (later_on c))

  pub marked-recompute :
      (func : Exec (Cache h) Value) (c : Cache h)
      → Leaves sound o raw_key func
      → marked sound o raw_key (recompute h o raw_key func c).1 ≡ marked sound o raw_key c
  unfolding recompute timer time row
  marked-recompute func c leaves = elim (Result-cases (func (later_on c)).0) [
    | inl (v, e) ↦ let (b, c', e', same) = marked-timed func c v leaves in rw (e, e') same
    | inr (x, e) ↦ rw (e) (leaves (later_on c))
  ]

  miss-marked :
      (func : Exec (Cache h) Value) (c : Cache h)
      → Leaves sound o raw_key func
      → (started (miss h o raw_key func c).0 ≡ false)
        × (marked sound o raw_key (miss h o raw_key func c).1 ≡ marked sound o raw_key c)
  unfolding miss timer time row two_of
  miss-marked func c leaves = elim (Result-cases (func (later_on c)).0) [
    | inl (v, e) ↦
        let (b, c', e', same) = marked-timed func c v leaves in (rw (e, e'), rw (e, e') same)
    | inr (x, e) ↦ (rw (e), rw (e) (leaves (later_on c)))
  ]

  -- A call starts a thread just when it sets the mark, which was not there.
  abbrev pub Marks : Cache h → Result (Value × Bool) × Cache h → Type 0
  Marks c (r, c') =
      ((started r ≡ false) × (marked sound o raw_key c' ≡ marked sound o raw_key c))
      ⊎ ((started r ≡ true)
          × (marked sound o raw_key c ≡ false)
          × (marked sound o raw_key c' ≡ true))

  null_plain : is_plain null ≡ true
  unfolding is_plain
  null_plain = refl

  add-Marks :
      (v : Value) (e : Option ℕ) (c : Cache h)
      → (b : Bool) × (c' : Cache h) × (add h (thread_key o raw_key) null e false none c
          ≡ (ok b, c'))
        × Marks c (ok (v, b), c')
  unfolding add read_file row
  add-Marks v e c = elim (Bool-cases (marked sound o raw_key c)) [
    | inl there ↦
        (false, c, rw (contains-has sound c (thread_key o raw_key), there), inl (refl, refl))
    | inr free ↦ elim (Bool-cases (ready sound c (thread_key o raw_key))) [
      | inl can ↦
          let (c', e', w) =
            store_writes sound (thread_key o raw_key) null e none c can null_plain in
          (
            true,
            c',
            rw (contains-has sound c (thread_key o raw_key), free, e'),
            inr (refl, free, w.rows (thread_key o raw_key) ∙ rw (eq_refl (thread_key o raw_key))),
          )
      | inr cannot ↦
          let e' = set_refused sound (thread_key o raw_key) null e false none c cannot null_plain in
          (
            false,
            record c { reads = readings h e c.reads },
            rw (contains-has sound c (thread_key o raw_key), free) e',
            inl (refl, refl),
          )
    ]
  ]

  hit-Marks :
      (both : Value) (at : Option (Option ℕ)) (c : Cache h) → Marks c (hit h o raw_key both at c)
  unfolding hit time row
  hit-Marks both at c = elim (Result-cases (two_of both)) [
    | inr (x, e) ↦ rw (e) (inl (refl, refl))
    | inl (found, e) ↦
        let late = record c { reads = c.reads + 1 } in
        let left = time_left h o at (h.clock c.reads) in
        elim (Bool-cases (ltb_ℤ (pos 0) left && o.fresh found.1 left)) [
          | inl young ↦ rw (e, young) (inl (refl, refl))
          | inr old ↦
              let (b, c', e', m) = add-Marks found.0 (some (pos_part found.1)) late in
              rw (e, old, e') m
        ]
  ]

  get_returns :
      (c : Cache h)
      → (r : Reply) × (get h (cache_key o raw_key) (other o.eno) false true false c ≡ (ok r, c))
  unfolding get ask decode_row missing wrap reply
  get_returns c = elim (Option-cases c.rust) [
    | inl closed ↦ (missing (other o.eno) true false, rw (closed))
    | inr (s, open_) ↦ elim (Result-cases (h.get s (cache_key o raw_key))) [
      | inr (x, e) ↦ (missing (other o.eno) true false, rw (open_, e))
      | inl (found, e) ↦ elim (Option-cases found) [
        | inl gone ↦ (missing (other o.eno) true false, rw (open_, e, gone))
        | inr (content, there) ↦ elim (Result-cases (auto_deserialize h content)) [
          | inr (x, bad) ↦ (missing (other o.eno) true false, rw (open_, e, there, bad))
          | inl (v, good) ↦ (
            record {
              value = v;
              expire_time = some (Dict.get c.expire_times (cache_key o raw_key));
              tag = none;
            },
            rw (open_, e, there, good),
          )
        ]
      ]
    ]
  ]

  pub wrapper-Marks :
      (func : Exec (Cache h) Value) (c : Cache h)
      → Leaves sound o raw_key func
      → Marks c (wrapper h o raw_key func c)
  unfolding wrapper
  wrapper-Marks func c leaves =
      let (r, e) = get_returns c in
      elim (Bool-cases (is_eno o r.value)) [
        | inl absent ↦ rw (e, absent) (inl (miss-marked func c leaves))
        | inr there ↦ rw (e, there) (hit-Marks r.value r.expire_time c)
      ]
