-- ===== src/Cache/Check.antt =====
-- `check`. The part on the directory is left out, since the model has no file system; no part of
-- the rest raises, so its outer `except` is never reached.
pub mod Repair
use diskcache_rs.Base.{String, Bool, true, false, Option, List, [], ◌∷◌, ◌++◌, if◌then◌else◌}
use diskcache_rs.Cache.Read.{contains, keys}
use diskcache_rs.Cache.State.{Cache, ask, call}
use diskcache_rs.Dict
use diskcache_rs.Exec.{Exec, pure, gets, attempt, modify, ◌>>=◌, ◌>>◌}
use diskcache_rs.Host.{Host}

-- The warnings, without the text of an exception.
pub data Warning : Type 0 where
  inaccessible removed_inaccessible missing_expire removed_expire missing_tag removed_tag :
      String → Warning

module _ (h : Host) where
  -- the fix for a key that cannot be read
  unfoldable pub remove_inaccessible : Bool → String → Exec (Cache h) (List Warning)
  remove_inaccessible false key = pure (inaccessible key ∷ [])
  remove_inaccessible true key =
      attempt
        (do call (λ s. h.delete s key); pure (inaccessible key ∷ removed_inaccessible key ∷ []))
        (pure (inaccessible key ∷ []))

  -- the loop over the keys
  unfoldable pub check_rows : Bool → List String → Exec (Cache h) (List Warning)
  unfolding remove_inaccessible
  check_rows fix [] = pure []
  check_rows fix (key ∷ ks) = do
    warned ← attempt (do ask (λ s. h.get s key); pure []) (remove_inaccessible fix key)
    rest ← check_rows fix ks
    pure (warned ++ rest)

  -- the loop over `list(self._expire_times)`
  unfoldable pub check_times : Bool → List String → Exec (Cache h) (List Warning)
  check_times fix [] = pure []
  check_times fix (key ∷ ks) =
      let others = check_times fix ks in
      do
        found ← contains h key
        if found
            then others
            else if fix
            then (do
              modify (λ c. record c { expire_times = Dict.remove c.expire_times key })
              rest ← others
              pure (missing_expire key ∷ removed_expire key ∷ rest))
            else (do rest ← others; pure (missing_expire key ∷ rest))

  -- the loop over `list(self._tags)`
  unfoldable pub check_tags : Bool → List String → Exec (Cache h) (List Warning)
  check_tags fix [] = pure []
  check_tags fix (key ∷ ks) =
      let others = check_tags fix ks in
      do
        found ← contains h key
        if found
            then others
            else if fix
            then (do
              modify (λ c. record c { tags = Dict.remove c.tags key })
              rest ← others
              pure (missing_tag key ∷ removed_tag key ∷ rest))
            else (do rest ← others; pure (missing_tag key ∷ rest))

  unfoldable pub check : Bool → Exec (Cache h) (List Warning)
  unfolding check_rows check_times check_tags
  check fix = do
    ks ← keys h
    rows ← check_rows fix ks
    timed ← gets (λ c. Dict.keys c.expire_times)
    times ← check_times fix timed
    tagged ← gets (λ c. Dict.keys c.tags)
    tags ← check_tags fix tagged
    pure (rows ++ times ++ tags)
