-- ===== src/Cache/Settings.antt =====
-- `reset`, and the store and fetch of the proxy that `disk` returns.
use diskcache_rs.Base.{String, ◌≡◌, Bool, true, ◌&&◌, not, none, some, [], ◌∷◌, if◌then◌else◌}
use diskcache_rs.Base.Int.{pos}
use diskcache_rs.Dict
use diskcache_rs.Dict.{Dict}
use diskcache_rs.Exec.{Result, ok, or_else, and_then}
use diskcache_rs.Host.{Host}
use diskcache_rs.Host.Sound.{IsSound}
use diskcache_rs.Value.{Value, null, int, text, bytes, is_null, is_plain}

-- `_settings`
abbrev pub settings : Dict Value
settings =
    ("statistics", int (pos 0))
    ∷ ("tag_index", int (pos 0))
    ∷ ("eviction_policy", text "least-recently-stored")
    ∷ ("size_limit", int (pos 1073741824))
    ∷ ("cull_limit", int (pos 10))
    ∷ ("disk_min_file_size", int (pos 32768))
    ∷ []

-- It reads and writes a dict of its own, so that no cache takes part.
unfoldable pub reset : String → Value → Bool → Value
reset key value update =
    if not (is_null value) && update
    then value
    else elim (Dict.get settings key) [ none ↦ null | some v ↦ v ]

module _ (h : Host) where
  unfoldable pub proxy_store : Value → Result Value
  proxy_store value = and_then (h.dumps value) (λ d. ok (bytes d))

  unfoldable pub proxy_fetch : Value → Result Value
  proxy_fetch (bytes d) = or_else (h.loads d) (ok (bytes d))
  proxy_fetch v = ok v

-- What the store of the proxy makes of a plain value, its fetch reads back.
pub proxy_trip :
    {h : Host} (sound : IsSound h) (v : Value)
    → is_plain v ≡ true
    → and_then (proxy_store h v) (proxy_fetch h) ≡ ok v
unfolding proxy_store proxy_fetch
proxy_trip sound v plain = rw (sound.dumps_plain v plain, sound.loads_pickled v plain)
