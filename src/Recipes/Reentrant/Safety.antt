-- ===== src/Recipes/Reentrant/Safety.antt =====
-- Users of one `RLock` whose turns interleave, as a step relation.
use mathlib.Core.Path.{subst}
use diskcache_rs.Base.{
  ◌⊎◌, suc, String, ◌≡◌, refl, sym, ◌∙◌, ap, true, false, ◌&&◌, ◌||◌, none, List, [], ◌∷◌, length,
  inl, inr, arith, Bool-cases, str_eq, eq_iff, if◌then◌else◌,
}
use diskcache_rs.Base.Int.{pos, ltb_ℤ, eqb_ℤ}
use diskcache_rs.Cache.Laws.{ready}
use diskcache_rs.Cache.State.{Cache}
use diskcache_rs.Cache.View.{view}
use diskcache_rs.Exec.{ok}
use diskcache_rs.Host.{Host}
use diskcache_rs.Host.Sound.{IsSound}
use diskcache_rs.Recipes.Mutex.{Params}
use diskcache_rs.Recipes.Reentrant.{
  try_acquire, release, is_name, owner_and_count, IsHeld, try_acquire_open, try_acquire_busy,
  release-IsHeld, release_refused,
}
use diskcache_rs.Value.{Value, null, text}

-- every hold is by `u`
abbrev pub AllBy : String → List String → Type 0
AllBy u [] = Unit {0}
AllBy u (v ∷ us) = (v ≡ u) × AllBy u us

-- without the first hold by a user
unfoldable pub leave : String → List String → List String
leave u [] = []
leave u (v ∷ us) = let rest = leave u us in if str_eq v u then us else v ∷ rest

module _ {h : Host} (sound : IsSound h) (p : Params) where
  -- A turn of `acquire` that gets the lock, one that does not, a release that returns, and any use
  -- of the cache that leaves the key of the lock alone.
  pub data Step : Cache h → List String → Cache h → List String → Type 0 where
    take_it :
        {c c' : Cache h} {us : List String} (u : String)
        → try_acquire h p u c ≡ (ok true, c')
        → Step c us c' (u ∷ us)
    spin :
        {c c' : Cache h} {us : List String} (u : String)
        → try_acquire h p u c ≡ (ok false, c')
        → Step c us c' us
    leave_it :
        {c c' : Cache h} {us : List String} (u : String)
        → release h p u c ≡ (ok tt, c')
        → Step c us c' (leave u us)
    elsewhere :
        {c c' : Cache h} {us : List String}
        → view sound c' p.key ≡ view sound c p.key
        → ready sound c' p.key ≡ ready sound c p.key
        → Step c us c' us

  -- the states that users reach from a cache that takes the key and has no row for it
  pub data Reach : Cache h → List String → Type 0 where
    start : (c : Cache h) → ready sound c p.key ≡ true → view sound c p.key ≡ none → Reach c []
    later : {c c' : Cache h} {us us' : List String} → Reach c us → Step c us c' us' → Reach c' us'

  pub record IsOwned (c : Cache h) (us : List String) : Type 0 where
    pub user : String
    pub owner : Value
    pub held : IsHeld sound p c owner (length us)
    pub all : AllBy user us
    pub own : (us ≡ []) ⊎ (owner ≡ text user)

  -- the owner of a lock that is held is a user
  owner_of :
      {c : Cache h} {v : String} {us : List String} (m : IsOwned c (v ∷ us)) → m.owner ≡ text m.user
  owner_of m = elim m.own [ inl nobody ↦ absurd (ground (arith, nobody)) | inr e ↦ e ]

  same_user :
      {c : Cache h} {v : String} {us : List String} (u : String) (m : IsOwned c (v ∷ us))
      → is_name u m.owner ≡ true
      → u ≡ m.user
  unfolding is_name
  same_user u m named =
      let also : is_name u (text m.user) ≡ true =
        subst (λ o. is_name u o ≡ true) (owner_of m) named in
      (eq_iff u m.user).0 also

  -- who may take the lock has all the holds there are
  taken_by :
      {c : Cache h} (u : String) (us : List String) (m : IsOwned c us)
      → is_name u m.owner || eqb_ℤ (pos (length us)) (pos 0) ≡ true
      → AllBy u us
  taken_by u [] m open_ = tt
  taken_by u (v ∷ us) m open_ =
      let more : eqb_ℤ (pos (length (v ∷ us))) (pos 0) ≡ false = ground arith in
      let named : is_name u m.owner ≡ true = ground (arith, open_, more) in
      subst (λ x. AllBy x (v ∷ us)) (sym (same_user u m named)) m.all

  -- a release that returns is by the user who has the holds, and takes one of them away
  left_by :
      {c c' : Cache h} (u : String) (us : List String) (m : IsOwned c us)
      → release h p u c ≡ (ok tt, c')
      → IsOwned c' (leave u us)
  unfolding leave
  left_by {c} {c'} u [] m e =
      let none_held : is_name u m.owner && ltb_ℤ (pos 0) (pos 0) ≡ false = ground arith in
      absurd (ground (arith, e, release_refused sound p c m.owner 0 u m.held none_held))
  left_by {c} {c'} u (v ∷ us) m e = elim (Bool-cases (is_name u m.owner)) [
    | inl named ↦
        let same : u ≡ m.user = same_user u m named in
        let (d, e', s) = release-IsHeld sound p c u (length us) (
          subst (λ o. IsHeld sound p c o (suc (length us))) (owner_of m ∙ ap text (sym same))
            m.held) in
        let end : d ≡ c' = ap (λ r. r.1) (sym e' ∙ e) in
        let first : str_eq v u ≡ true = (eq_iff v u).1 (m.all.0 ∙ sym same) in
        rw first (record {
          user = m.user;
          owner = text u;
          held = rw (end) at s;
          all = m.all.1;
          own = inr (ap text same);
        })
    | inr foreign ↦
        let refused : is_name u m.owner && ltb_ℤ (pos 0) (pos (suc (length us))) ≡ false =
          ground (arith, foreign) in
        absurd
          (ground (arith, e, release_refused sound p c m.owner (suc (length us)) u m.held refused))
  ]

  Step-IsOwned :
      {c c' : Cache h} {us us' : List String} → Step c us c' us' → IsOwned c us → IsOwned c' us'
  Step-IsOwned {c} {c'} {us} (take_it u e) m =
      elim (Bool-cases (is_name u m.owner || eqb_ℤ (pos (length us)) (pos 0))) [
        | inl open_ ↦
            let (d, e', s) = try_acquire_open sound p c m.owner (length us) u m.held open_ in
            let same : d ≡ c' = ap (λ r. r.1) (sym e' ∙ e) in
            record {
              user = u;
              owner = text u;
              held = rw (same) at s;
              all = (refl, taken_by u us m open_);
              own = inr refl;
            }
        | inr busy ↦
            absurd (ground (arith, e, try_acquire_busy sound p c m.owner (length us) u m.held busy))
      ]
  Step-IsOwned {c} {c'} {us} (spin u e) m =
      elim (Bool-cases (is_name u m.owner || eqb_ℤ (pos (length us)) (pos 0))) [
        | inl open_ ↦
            let (d, e', s) = try_acquire_open sound p c m.owner (length us) u m.held open_ in
            absurd (ground (arith, e, e'))
        | inr busy ↦
            let same : c ≡ c' =
              ap (λ r. r.1)
                (sym (try_acquire_busy sound p c m.owner (length us) u m.held busy) ∙ e) in
            rw (same) at m
      ]
  Step-IsOwned {c} {c'} {us} (leave_it u e) m = left_by u us m e
  Step-IsOwned {c} {c'} {us} (elsewhere row takes) m = record {
    user = m.user;
    owner = m.owner;
    held = record { takes = takes ∙ m.held.takes; entry = rw row m.held.entry };
    all = m.all;
    own = m.own;
  }

  -- In every state that users of an RLock reach from a cache that takes its key and has no row
  -- for it, by turns of acquire, releases and uses of the cache that leave the key alone, all
  -- holds belong to one user, who is the owner in the cache if there is a hold, and the count in
  -- the cache is the number of holds.
  pub Reach-IsOwned : {c : Cache h} {us : List String} → Reach c us → IsOwned c us
  unfolding owner_and_count
  Reach-IsOwned (start c can empty) = record {
    user = "";
    owner = null;
    held = record { takes = can; entry = rw empty };
    all = tt;
    own = inl refl;
  }
  Reach-IsOwned (later r st) = Step-IsOwned st (Reach-IsOwned r)
