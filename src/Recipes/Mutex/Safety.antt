-- ===== src/Recipes/Mutex/Safety.antt =====
-- Users of one `Lock` whose calls interleave, as a step relation. The two halves of `Cache.add` are
-- steps of their own, since `Lock.acquire` holds no transaction.
use diskcache_rs.Base.{
  ℕ, ◌+◌, ◌≤◌, ◌≡◌, ◌≢◌, refl, sym, ◌∙◌, ap, Bool, true, false, ◌&&◌, List, [], ◌∷◌, ◌++◌, length,
  arith, inl, inr, ◌⊎◌, ◌==◌,
}
use diskcache_rs.Cache.Laws.{ready}
use diskcache_rs.Cache.State.{Cache}
use diskcache_rs.Cache.View.{has}
use diskcache_rs.Exec.{Result, ok}
use diskcache_rs.Host.{Host}
use diskcache_rs.Host.Sound.{IsSound}
use diskcache_rs.Recipes.Mutex.{
  Params, look, finish, release, leave, holds, look-has, finish_found, finish_missing, release_lem,
}

-- When at most one user is there, nobody stays after one has left.
leave_last : (u : ℕ) (us : List ℕ) → length us ≤ 1 → holds u us ≡ true → leave u us ≡ []
unfolding leave holds
leave_last u [] le there = refl
leave_last u (v ∷ []) le there = ground arith
leave_last u (v ∷ w ∷ us) le there = absurd (omega arith)

-- The users who have looked for the key and not gone on yet, each with what was found.
abbrev pub Pending : Type 0
Pending = List (ℕ × Bool)

-- how many of them did not see the key
unfoldable pub unseen : Pending → ℕ
unseen [] = 0
unseen ((u, true) ∷ ws) = unseen ws
unseen ((u, false) ∷ ws) = unseen ws + 1

unseen_found :
    (pre post : Pending) (u : ℕ) → unseen (pre ++ (u, true) ∷ post) ≡ unseen (pre ++ post)
unfolding unseen
unseen_found [] post u = refl
unseen_found ((v, true) ∷ pre) post u = unseen_found pre post u
unseen_found ((v, false) ∷ pre) post u = ap (λ n. n + 1) (unseen_found pre post u)

unseen_missing :
    (pre post : Pending) (u : ℕ) → unseen (pre ++ (u, false) ∷ post) ≡ unseen (pre ++ post) + 1
unfolding unseen
unseen_missing [] post u = refl
unseen_missing ((v, true) ∷ pre) post u = unseen_missing pre post u
unseen_missing ((v, false) ∷ pre) post u = ap (λ n. n + 1) (unseen_missing pre post u)

module _ {h : Host} (sound : IsSound h) (p : Params) where
  -- The first half of a turn, by any user; the second half, by a user who has looked, who then has
  -- the lock or, after False or an exception, has not; a release by a user who holds the lock; and
  -- any use of the cache that leaves the key of the lock alone.
  pub data Step : Cache h → Pending → List ℕ → Cache h → Pending → List ℕ → Type 0 where
    look_in :
        {c c' : Cache h} {ws : Pending} {us : List ℕ} (u : ℕ) (found : Bool)
        → look h p c ≡ (ok found, c')
        → Step c ws us c' ((u, found) ∷ ws) us
    take_it :
        {c c' : Cache h} {us : List ℕ} (pre post : Pending) (u : ℕ) (found : Bool)
        → finish h p found c ≡ (ok true, c')
        → Step c (pre ++ (u, found) ∷ post) us c' (pre ++ post) (u ∷ us)
    turn_back :
        {c c' : Cache h} {us : List ℕ} {r : Result Bool} (pre post : Pending) (u : ℕ) (found : Bool)
        → finish h p found c ≡ (r, c')
        → r ≢ ok true
        → Step c (pre ++ (u, found) ∷ post) us c' (pre ++ post) us
    leave_it :
        {c c' : Cache h} {ws : Pending} {us : List ℕ} (u : ℕ)
        → holds u us ≡ true
        → release h p c ≡ (ok tt, c')
        → Step c ws us c' ws (leave u us)
    elsewhere :
        {c c' : Cache h} {ws : Pending} {us : List ℕ}
        → has sound c' p.key ≡ has sound c p.key
        → ready sound c' p.key ≡ ready sound c p.key
        → Step c ws us c' ws us

  -- the states that users reach from a cache that takes the key and has no row for it
  pub data Reach : Cache h → Pending → List ℕ → Type 0 where
    start : (c : Cache h) → ready sound c p.key ≡ true → has sound c p.key ≡ false → Reach c [] []
    later :
        {c c' : Cache h} {ws ws' : Pending} {us us' : List ℕ}
        → Reach c ws us
        → Step c ws us c' ws' us'
        → Reach c' ws' us'

  -- Nobody misses the key while another user who missed it has not gone on.
  unfoldable pub is_apart :
      {c c' : Cache h} {ws ws' : Pending} {us us' : List ℕ} → Step c ws us c' ws' us' → Bool
  is_apart (look_in {c} {c'} {ws} u true e) = true
  is_apart (look_in {c} {c'} {ws} u false e) = unseen ws == 0
  is_apart (take_it pre post u found e) = true
  is_apart (turn_back pre post u found e other) = true
  is_apart (leave_it u there e) = true
  is_apart (elsewhere row takes) = true

  -- the same of every step of a run
  unfoldable pub all_apart : {c : Cache h} {ws : Pending} {us : List ℕ} → Reach c ws us → Bool
  unfolding is_apart
  all_apart (start c can free) = true
  all_apart (later r st) = all_apart r && is_apart st

  -- The key is there just while one user holds the lock, and then nobody is about to write it.
  pub record IsMutex (c : Cache h) (ws : Pending) (us : List ℕ) : Type 0 where
    pub takes : ready sound c p.key ≡ true
    pub few : unseen ws ≤ 1
    pub one :
        ((us ≡ []) × (has sound c p.key ≡ false))
        ⊎ ((length us ≡ 1) × (has sound c p.key ≡ true) × (unseen ws ≡ 0))

  one_holder : {c : Cache h} {ws : Pending} {us : List ℕ} → IsMutex c ws us → length us ≤ 1
  one_holder m = elim m.one [
    | inl (nobody, free) ↦ rw nobody (omega arith)
    | inr (one, held, none_) ↦ omega (arith, one)
  ]

  -- A user who saw the key counts for nothing.
  look_found :
      {c : Cache h} {ws : Pending} {us : List ℕ} (u : ℕ)
      → IsMutex c ws us
      → IsMutex c ((u, true) ∷ ws) us
  unfolding unseen
  look_found u m = record { takes = m.takes; few = m.few; one = m.one }

  go_found :
      {c : Cache h} {us : List ℕ} (pre post : Pending) (u : ℕ)
      → IsMutex c (pre ++ (u, true) ∷ post) us
      → IsMutex c (pre ++ post) us
  go_found pre post u m = record {
    takes = m.takes;
    few = rw (unseen_found pre post u) at m.few;
    one = rw (unseen_found pre post u) at m.one;
  }

  look_missing :
      {c : Cache h} {ws : Pending} {us : List ℕ} (u : ℕ)
      → (unseen ws == 0) ≡ true
      → has sound c p.key ≡ false
      → IsMutex c ws us
      → IsMutex c ((u, false) ∷ ws) us
  unfolding unseen
  look_missing u apart free m = record {
    takes = m.takes;
    few = ground arith;
    one = elim m.one [
      | inl (nobody, free') ↦ inl (nobody, free')
      | inr (one, held, none_) ↦ absurd (ground (arith, held, free))
    ];
  }

  -- A user who missed the key and goes on is the only one who holds the lock.
  take_missing :
      {c : Cache h} {us : List ℕ} (pre post : Pending) (u : ℕ)
      → IsMutex c (pre ++ (u, false) ∷ post) us
      → (unseen (pre ++ post) ≡ 0) × (us ≡ [])
  take_missing pre post u m =
      let few : unseen (pre ++ post) ≡ 0 = omega (arith, m.few, unseen_missing pre post u) in
      (
        few,
        elim m.one [
          | inl (nobody, free) ↦ nobody
          | inr (one, held, none_) ↦ absurd (omega (arith, none_, unseen_missing pre post u))
        ],
      )

  Step-IsMutex :
      {c c' : Cache h} {ws ws' : Pending} {us us' : List ℕ} (st : Step c ws us c' ws' us')
      → is_apart st ≡ true
      → IsMutex c ws us
      → IsMutex c' ws' us'
  unfolding is_apart unseen
  Step-IsMutex {c} {c'} (look_in u true e) apart m =
      let same : c ≡ c' = ap (λ r. r.1) (sym (look-has sound p c) ∙ e) in
      rw (same) at (look_found u m)
  Step-IsMutex {c} {c'} {ws} (look_in u false e) apart m =
      let same : c ≡ c' = ap (λ r. r.1) (sym (look-has sound p c) ∙ e) in
      let free : has sound c p.key ≡ false = ground (arith, look-has sound p c, e) in
      rw (same) at (look_missing u apart free m)
  Step-IsMutex {c} {c'} (take_it pre post u true e) apart m =
      absurd (ground (arith, e, finish_found sound p c))
  Step-IsMutex {c} {c'} (take_it pre post u false e) apart m =
      let (d, e', there, open_) = finish_missing sound p c m.takes in
      let (none_, nobody) = take_missing pre post u m in
      let same : d ≡ c' = ap (λ r. r.1) (sym e' ∙ e) in
      record {
        takes = rw (same) at open_;
        few = rw none_ (omega arith);
        one = inr (rw nobody refl, rw (same) at there, none_);
      }
  Step-IsMutex {c} {c'} (turn_back pre post u true e other) apart m =
      let same : c ≡ c' = ap (λ r. r.1) (sym (finish_found sound p c) ∙ e) in
      rw (same) at (go_found pre post u m)
  Step-IsMutex {c} {c'} (turn_back pre post u false e other) apart m =
      let (d, e', there, open_) = finish_missing sound p c m.takes in
      absurd (other (ap (λ r. r.0) (sym e ∙ e')))
  Step-IsMutex {c} {c'} {us = us} (leave_it u held e) apart m =
      let (d, e', gone, open_) = release_lem sound p c m.takes in
      let same : d ≡ c' = ap (λ r. r.1) (sym e' ∙ e) in
      record {
        takes = rw (same) at open_;
        few = m.few;
        one = inl (leave_last u us (one_holder m) held, rw (same) at gone);
      }
  Step-IsMutex (elsewhere row takes) apart m = record {
    takes = takes ∙ m.takes;
    few = m.few;
    one = rw row m.one;
  }

  pub Reach-IsMutex :
      {c : Cache h} {ws : Pending} {us : List ℕ} (r : Reach c ws us)
      → all_apart r ≡ true
      → IsMutex c ws us
  unfolding all_apart unseen
  Reach-IsMutex (start c can free) apart = record {
    takes = can;
    few = omega arith;
    one = inl (refl, free);
  }
  Reach-IsMutex (later r st) apart = Step-IsMutex st (ground arith) (Reach-IsMutex r (ground arith))
