-- ===== src/Cache/Queue/Holds.antt =====
-- What a queue holds: the counters, and one value for each index between them.
use diskcache_rs.Base.{
  ℕ, suc, ◌<◌, String, ◌≡◌, refl, ◌∙◌, ◌≢◌, true, Option, some, List, [], ◌∷◌, ◌++◌, arith, length,
}
use diskcache_rs.Base.Int.{ℤ, pos, ◌+ℤ◌, int_laws}
use diskcache_rs.Cache.Laws.{ready, IsWrite, IsErase}
use diskcache_rs.Cache.Queue.{counter_key, front_key, item_key, counter, read_counter}
use diskcache_rs.Cache.Queue.Keys.{str_eq_of_ne}
use diskcache_rs.Cache.State.{Cache}
use diskcache_rs.Cache.View.{view, get_or, get_value-view}
use diskcache_rs.Exec.{ok}
use diskcache_rs.Host.{Host}
use diskcache_rs.Host.Sound.{IsSound}
use diskcache_rs.Value.{Value, null, int}

pub shift : (i : ℤ) (n : ℕ) → i +ℤ pos 1 +ℤ pos n ≡ i +ℤ pos (suc n)
shift i n = omega int_laws

pub add_zero : (i : ℤ) → i +ℤ pos 0 ≡ i
add_zero i = omega int_laws

module _ {h : Host} (sound : IsSound h) (p : Option String) where
  -- the values at the keys of `i`, `i + 1`, … in order
  abbrev pub Holds : Cache h → ℤ → List Value → Type 0
  Holds c i [] = Unit {0}
  Holds c i (v ∷ vs) = (view sound c (item_key p i) ≡ some v) × Holds c (i +ℤ pos 1) vs

  pub record IsQueue (c : Cache h) (front : ℤ) (items : List Value) : Type 0 where
    pub back_counter :
        counter h (get_or (view sound c (counter_key p)) null) ≡ ok (front +ℤ pos (length items))
    pub front_counter : counter h (get_or (view sound c (front_key p)) null) ≡ ok front
    pub held : Holds c front items
    pub takes_counter : ready sound c (counter_key p) ≡ true
    pub takes_front : ready sound c (front_key p) ≡ true

  -- Two caches that agree on the keys of a range hold the same values there.
  pub Holds-frame :
      (c c' : Cache h) (i : ℤ) (vs : List Value)
      → ((n : ℕ)
          → n < length vs
          → view sound c' (item_key p (i +ℤ pos n)) ≡ view sound c (item_key p (i +ℤ pos n)))
      → Holds c i vs
      → Holds c' i vs
  Holds-frame c c' i [] same held = tt
  Holds-frame c c' i (v ∷ vs) same (here, rest) = (
    rw (add_zero) at (same 0 (omega arith)) ∙ here,
    Holds-frame c c' (i +ℤ pos 1) vs (λ n lt. rw (shift i n) (same (suc n) (omega arith))) rest,
  )

  -- a write to a key that is none of the range
  pub Holds-write :
      {c c' : Cache h} {k : String} {w : Value} (i : ℤ) (vs : List Value)
      → IsWrite sound c k w c'
      → ((n : ℕ) → n < length vs → k ≢ item_key p (i +ℤ pos n))
      → Holds c i vs
      → Holds c' i vs
  Holds-write {c} {c'} {k} {w} i vs wr apart held =
      Holds-frame c c' i vs
        (λ n lt. wr.views (item_key p (i +ℤ pos n)) ∙ rw (str_eq_of_ne _ _ (apart n lt))) held

  pub Holds-erase :
      {c c' : Cache h} {k : String} (i : ℤ) (vs : List Value)
      → IsErase sound c k c'
      → ((n : ℕ) → n < length vs → k ≢ item_key p (i +ℤ pos n))
      → Holds c i vs
      → Holds c' i vs
  Holds-erase {c} {c'} {k} i vs er apart held =
      Holds-frame c c' i vs
        (λ n lt. er.views (item_key p (i +ℤ pos n)) ∙ rw (str_eq_of_ne _ _ (apart n lt))) held

  pub Holds-append :
      (c : Cache h) (i : ℤ) (vs : List Value) (v : Value)
      → Holds c i vs
      → view sound c (item_key p (i +ℤ pos (length vs))) ≡ some v
      → Holds c i (vs ++ v ∷ [])
  Holds-append c i [] v held last = (rw (add_zero i) at last, tt)
  Holds-append c i (w ∷ vs) v (here, rest) last =
      (here, Holds-append c (i +ℤ pos 1) vs v rest (rw (shift i (length vs)) last))

  pub Holds-front :
      (c : Cache h) (i : ℤ) (vs : List Value) (v : Value)
      → Holds c i (vs ++ v ∷ [])
      → Holds c i vs × (view sound c (item_key p (i +ℤ pos (length vs))) ≡ some v)
  Holds-front c i [] v (here, rest) = (tt, rw (add_zero i) here)
  Holds-front c i (w ∷ vs) v (here, rest) =
      let (front, last) = Holds-front c (i +ℤ pos 1) vs v rest in
      ((here, front), rw (shift i (length vs)) at last)

  -- a key with a value is one that the open cache takes
  pub ready_of_view :
      (c : Cache h) (k : String) (v : Value) → view sound c k ≡ some v → ready sound c k ≡ true
  unfolding ready view
  ready_of_view c k v e = ground arith

  pub read_counter_lem :
      (c : Cache h) (k : String) (i : ℤ)
      → counter h (get_or (view sound c k) null) ≡ ok i
      → read_counter h k c ≡ (ok i, c)
  unfolding read_counter
  read_counter_lem c k i e = rw (get_value-view sound c k null, e)

  pub counter-int : (i : ℤ) → counter h (int i) ≡ ok i
  unfolding counter
  counter-int i = refl
