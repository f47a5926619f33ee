-- ===== src/Cache/Laws/Touch.antt =====
-- `touch` of python/diskcache_rs/cache.py.
use diskcache_rs.Base.{
  ℕ, String, ◌≡◌, sym, ◌∙◌, true, false, Option, none, some, str_eq, eq_iff, Bool-cases, inl, inr,
}
use diskcache_rs.Cache.Laws.{ready, deadline, set_writes}
use diskcache_rs.Cache.State.{Cache}
use diskcache_rs.Cache.Update.{touch}
use diskcache_rs.Cache.View.{view, has, get_or, get_value-view, contains-has, has_of_view}
use diskcache_rs.Cache.Write.{read_file, seconds}
use diskcache_rs.Dict
use diskcache_rs.Exec.{ok}
use diskcache_rs.Host.{Host}
use diskcache_rs.Host.Sound.{IsSound}
use diskcache_rs.Value.{Value, null, is_null, is_plain}

module _ {h : Host} (sound : IsSound h) (k : String) (expire : Option ℕ) where
  -- On an open cache that takes the key and has a plain value other than None there, touch
  -- returns True, no key reads differently, the expiration time worked out from expire is
  -- recorded for the key, and its tag is forgotten.
  pub touch_lem :
      (v : Value) (c : Cache h)
      → ready sound c k ≡ true
      → view sound c k ≡ some v
      → is_null v ≡ false
      → is_plain v ≡ true
      → (c' : Cache h) × (touch h k expire c ≡ (ok true, c'))
        × ((j : String) → view sound c' j ≡ view sound c j)
        × (Dict.get c'.expire_times k ≡ seconds (deadline h expire c.reads))
        × (Dict.get c'.tags k ≡ none)
  unfolding touch read_file
  touch_lem v c can here present plain =
      let (c', e, w, own_time, own_tag) = set_writes sound k v expire false none c can plain in
      (
        c',
        rw (
          contains-has sound c k,
          has_of_view sound c k v here,
          get_value-view sound c k null,
          here,
          present,
          e,
        ),
        λ j. w.views j ∙ (elim (Bool-cases (str_eq k j)) [
          | inl same ↦ let e : k ≡ j = (eq_iff k j).0 same in rw (same, ← e) (sym here)
          | inr other ↦ rw (other)
        ]),
        own_time,
        own_tag,
      )

  -- A key without a value, or with None as its value, is not touched.
  pub touch_missing :
      (c : Cache h)
      → is_null (get_or (view sound c k) null) ≡ true
      → touch h k expire c ≡ (ok false, c)
  unfolding touch
  touch_missing c gone = elim (Bool-cases (has sound c k)) [
    | inl there ↦ rw (contains-has sound c k, there, get_value-view sound c k null, gone)
    | inr absent ↦ rw (contains-has sound c k, absent)
  ]
