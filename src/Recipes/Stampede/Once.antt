-- ===== src/Recipes/Stampede/Once.antt =====
-- One thread for each result that is late, and none while it is fresh.
use diskcache_rs.Base.{
  ◌+◌, String, ◌≡◌, refl, ◌∙◌, Bool, true, false, ◌&&◌, none, some, List, [], ◌∷◌, map, arith,
  eq_refl, str_eq,
}
use diskcache_rs.Base.Int.{ℤ, pos, ◌-ℤ◌, pos_part}
use diskcache_rs.Cache.Laws.{ready, store_writes}
use diskcache_rs.Cache.Read.{get, missing}
use diskcache_rs.Cache.State.{Cache, time}
use diskcache_rs.Cache.Update.{add}
use diskcache_rs.Cache.View.{view, row, has, contains-has, get_row_value, get_row_none}
use diskcache_rs.Dict
use diskcache_rs.Exec.{Exec, ok, pure, ◌>>=◌}
use diskcache_rs.Host.{Host}
use diskcache_rs.Host.Sound.{IsSound}
use diskcache_rs.Recipes.Stampede.{
  Options, is_eno, two_of, cache_key, thread_key, timer, hit, miss, wrapper,
}
use diskcache_rs.Value.{Value, null, int, pair, other, is_plain}

and_false : (b : Bool) → b && false ≡ false
and_false true = refl
and_false false = refl

timed_plain : (v : Value) (i : ℤ) → is_plain v ≡ true → is_plain (pair v (int i)) ≡ true
unfolding is_plain
timed_plain v i plain = rw (plain)

is_itself : (o : Options) → is_eno o (other o.eno) ≡ true
is_itself o = ground arith

null_plain : is_plain null ≡ true
unfolding is_plain
null_plain = refl

module _ {h : Host} (sound : IsSound h) (o : Options) (raw_key : List Value) where
  abbrev key : String
  key = cache_key o raw_key

  abbrev mark : String
  mark = thread_key o raw_key

  -- the cache after one reading of the clock
  abbrev later : Cache h → Cache h
  later c = record c { reads = c.reads + 1 }

  -- the key has the result `v`, which took the time `d`
  abbrev pub Holds : Cache h → Value → ℤ → Type 0
  Holds c v d = view sound c key ≡ some (pair v (int d))

  -- the lookup that a call begins with
  found :
      (c : Cache h) (v : Value) (d : ℤ)
      → Holds c v d
      → get h key (other o.eno) false true false c ≡ (
        ok (record {
          value = pair v (int d);
          expire_time = some (Dict.get c.expire_times key);
          tag = none;
        }),
        c,
      )
  found c v d here = get_row_value sound c key (other o.eno) (pair v (int d)) true false here

  module _ (v : Value) (d : ℤ) (late : (ttl : ℤ) → o.fresh d ttl ≡ false) where
    unmarked :
        (func : Exec (Cache h) Value) (c : Cache h)
        → str_eq mark key ≡ false
        → Holds c v d
        → has sound c mark ≡ false
        → ready sound c mark ≡ true
        → (c' : Cache h) × (wrapper h o raw_key func c ≡ (ok (v, true), c'))
          × Holds c' v d
          × (has sound c' mark ≡ true)
    unfolding wrapper hit two_of time add row view ready
    unmarked func c apart here free can =
        let (c', e, w) =
          store_writes sound mark null (some (pos_part d)) none (later c) can null_plain in
        (
          c',
          rw (found c v d here, late, and_false, contains-has sound (later c) mark, free, e),
          w.views key ∙ rw (apart) here,
          w.rows mark ∙ rw (eq_refl mark),
        )

    marked :
        (func : Exec (Cache h) Value) (c : Cache h)
        → Holds c v d
        → has sound c mark ≡ true
        → wrapper h o raw_key func c ≡ (ok (v, false), record c { reads = c.reads + 1 })
    unfolding wrapper hit two_of time add row view ready
    marked func c here there =
        rw (found c v d here, late, and_false, contains-has sound (later c) mark, there)

    -- the number of threads that calls in turn start, and whether all of them return `v`
    abbrev pub calls : List (Exec (Cache h) Value) → Exec (Cache h) (List (Value × Bool))
    calls [] = pure []
    calls (func ∷ funcs) = do r ← wrapper h o raw_key func; rs ← calls funcs; pure (r ∷ rs)

    abbrev pub no_thread : List (Exec (Cache h) Value) → List (Value × Bool)
    no_thread = map (λ func. (v, false))

    marked_calls :
        (funcs : List (Exec (Cache h) Value)) (c : Cache h)
        → Holds c v d
        → has sound c mark ≡ true
        → (c' : Cache h) × (calls funcs c ≡ (ok (no_thread funcs), c'))
    unfolding row view
    marked_calls [] c here there = (c, refl)
    marked_calls (func ∷ funcs) c here there =
        let (c', e) = marked_calls funcs (later c) here there in
        (c', rw (marked func c here there, e))

    -- If the cache holds the result of a call, the random test finds it too old every time, and
    -- the key of the mark is another one, is taken and has no row, then of calls made in turn all
    -- return that result, the first starts a thread and no later one does.
    pub one_thread :
        (func : Exec (Cache h) Value) (funcs : List (Exec (Cache h) Value)) (c : Cache h)
        → str_eq mark key ≡ false
        → Holds c v d
        → has sound c mark ≡ false
        → ready sound c mark ≡ true
        → (c' : Cache h) × (calls (func ∷ funcs) c ≡ (ok ((v, true) ∷ no_thread funcs), c'))
    one_thread func funcs c apart here free can =
        let (c₁, e₁, here₁, there) = unmarked func c apart here free can in
        let (c₂, e₂) = marked_calls funcs c₁ here₁ there in (c₂, rw (e₁, e₂))

  -- A call whose key has no row runs the function, returns its plain result and stores it with the time that it took.
  pub miss_stores :
      (func : Exec (Cache h) Value) (v : Value) (c d : Cache h)
      → has sound c key ≡ false
      → func (later c) ≡ (ok v, d)
      → is_plain v ≡ true
      → ready sound d key ≡ true
      → (c' : Cache h) × (wrapper h o raw_key func c ≡ (ok (v, false), c'))
        × Holds c' v (pos (h.clock d.reads) -ℤ pos (h.clock c.reads))
  unfolding wrapper miss missing two_of timer time ready row
  miss_stores func v c d none_ runs plain can =
      let took = pos (h.clock d.reads) -ℤ pos (h.clock c.reads) in
      let (c', e, w) =
        store_writes sound key (pair v (int took)) (some o.expire) o.tag (later d) can
          (timed_plain v took plain) in
      (
        c',
        rw (get_row_none sound c key (other o.eno) true false none_, is_itself o, runs, e),
        w.views key ∙ rw (eq_refl key),
      )
