-- ===== src/Cache/Queue/Push.antt =====
-- `push` on a queue that a cache holds.
use diskcache_rs.Base.{
  ℕ, ◌<◌, String, ◌≡◌, sym, ◌∙◌, ap, ◌≢◌, true, Option, none, List, [], ◌∷◌, ◌++◌, eq_refl, length,
  length-append,
}
use diskcache_rs.Base.Int.{ℤ, pos, pos_part, neg_part, ◌+ℤ◌, ◌-ℤ◌, int_laws}
use diskcache_rs.Cache.Laws.{ready, store_writes, plain_int}
use diskcache_rs.Cache.Queue.{
  counter_key, front_key, item_key, counter, write_counters, push_at, push,
}
use diskcache_rs.Cache.Queue.Holds.{
  IsQueue, Holds, Holds-frame, Holds-write, Holds-append, read_counter_lem, counter-int,
}
use diskcache_rs.Cache.Queue.Keys.{
  str_eq_of_ne, item_key_inj, item-ne-counter, item-ne-front, counter-ne-front,
}
use diskcache_rs.Cache.State.{Cache}
use diskcache_rs.Cache.View.{view, get_or}
use diskcache_rs.Exec.{ok}
use diskcache_rs.Host.{Host}
use diskcache_rs.Host.Sound.{IsSound}
use diskcache_rs.Value.{Value, null, int, is_plain}

-- an index past the end, or before the front, is no index of the queue
pub past-ne : (i : ℤ) (m n : ℕ) → n < m → i +ℤ pos m ≢ i +ℤ pos n
past-ne i m n lt e = omega (int_laws, ap pos_part e, ap neg_part e)

pub before-ne : (i : ℤ) (n : ℕ) → i -ℤ pos 1 ≢ i +ℤ pos n
before-ne i n e = omega (int_laws, ap pos_part e, ap neg_part e)

module _ {h : Host} (sound : IsSound h) (p : Option String) where
  -- `c'` is `c` with the two counters set
  pub record IsCounted (c : Cache h) (back front : ℤ) (c' : Cache h) : Type 0 where
    pub back_counter : counter h (get_or (view sound c' (counter_key p)) null) ≡ ok back
    pub front_counter : counter h (get_or (view sound c' (front_key p)) null) ≡ ok front
    pub others :
        (j : String) → counter_key p ≢ j → front_key p ≢ j → view sound c' j ≡ view sound c j
    pub opens : (j : String) → ready sound c' j ≡ ready sound c j

  pub write_counters_lem :
      (c : Cache h) (back front : ℤ)
      → ready sound c (counter_key p) ≡ true
      → ready sound c (front_key p) ≡ true
      → (c' : Cache h) × (write_counters h p back front c ≡ (ok tt, c')) × IsCounted c back front c'
  unfolding write_counters
  write_counters_lem c back front rb rf =
      let (c₁, e₁, w₁) =
        store_writes sound (counter_key p) (int back) none none c rb (plain_int sound back) in
      let (c₂, e₂, w₂) =
        store_writes sound (front_key p) (int front) none none c₁ (w₁.opens _ ∙ rf)
          (plain_int sound front) in
      (
        c₂,
        rw (e₁, e₂),
        record {
          back_counter =
              rw
                (
                  w₂.views (counter_key p),
                  str_eq_of_ne (front_key p) (counter_key p) (λ e. counter-ne-front p (sym e)),
                  w₁.views (counter_key p),
                  eq_refl (counter_key p),
                )
                (counter-int sound p back);
          front_counter =
              rw (w₂.views (front_key p), eq_refl (front_key p)) (counter-int sound p front);
          others = λ j nb nf. rw (
            w₂.views j,
            str_eq_of_ne (front_key p) j nf,
            w₁.views j,
            str_eq_of_ne (counter_key p) j nb,
          );
          opens = λ j. w₂.opens j ∙ w₁.opens j;
        },
      )

  -- A queue whose counters are written anew: the entries stay, the range is the new one.
  pub Counted-IsQueue :
      (c c' : Cache h) (back front : ℤ) (items : List Value)
      → back ≡ front +ℤ pos (length items)
      → IsCounted c back front c'
      → Holds sound p c front items
      → ready sound c (counter_key p) ≡ true
      → ready sound c (front_key p) ≡ true
      → IsQueue sound p c' front items
  Counted-IsQueue c c' back front items reaches counted held rb rf = record {
    back_counter = counted.back_counter ∙ ap ok reaches;
    front_counter = counted.front_counter;
    held =
        Holds-frame sound p c c' front items
          (λ n lt.
            counted.others _ (λ e. item-ne-counter p _ (sym e)) (λ e. item-ne-front p _ (sym e)))
          held;
    takes_counter = counted.opens _ ∙ rb;
    takes_front = counted.opens _ ∙ rf;
  }

  module _ (c : Cache h) (front : ℤ) (items : List Value) (q : IsQueue sound p c front items)
      (v : Value) (plain : is_plain v ≡ true) (expire : Option ℕ) (tag : Option String) where
    -- If a cache holds a queue and the key of the index after its last is taken, then pushing a
    -- plain value at the back returns that index and leaves the queue with the value as its last;
    -- the cache is as ready for every key as before.
    pub push_back :
        ready sound c (item_key p (front +ℤ pos (length items))) ≡ true
        → (c' : Cache h) × (push h v p "back" expire tag c ≡ (ok (front +ℤ pos (length items)), c'))
          × IsQueue sound p c' front (items ++ v ∷ [])
          × ((j : String) → ready sound c' j ≡ ready sound c j)
    unfolding push push_at
    push_back can =
        let back = front +ℤ pos (length items) in
        let (c₁, e₁, w₁) = store_writes sound (item_key p back) v expire tag c can plain in
        let (c₂, e₂, k₂) =
          write_counters_lem c₁ (back +ℤ pos 1) front (w₁.opens _ ∙ q.takes_counter)
            (w₁.opens _ ∙ q.takes_front) in
        let longer : back +ℤ pos 1 ≡ front +ℤ pos (length (items ++ v ∷ [])) =
          omega (int_laws, length-append {0} items (v ∷ [])) in
        (
          c₂,
          rw (
            read_counter_lem sound p c (counter_key p) back q.back_counter,
            read_counter_lem sound p c (front_key p) front q.front_counter,
            e₁,
            e₂,
          ),
          Counted-IsQueue c₁ c₂ (back +ℤ pos 1) front (items ++ v ∷ []) longer k₂
              (Holds-append sound p c₁ front items v
                (Holds-write sound p front items w₁
                  (λ n lt e. past-ne front (length items) n lt (item_key_inj p _ _ e)) q.held)
                (w₁.views _ ∙ rw (eq_refl (item_key p back))))
              (w₁.opens _ ∙ q.takes_counter) (w₁.opens _ ∙ q.takes_front),
          λ j. k₂.opens j ∙ w₁.opens j,
        )

    -- If a cache holds a queue and the key of the index before its first is taken, then pushing a
    -- plain value at the front returns that index and leaves the queue with the value as its
    -- first; the cache is as ready for every key as before.
    pub push_front :
        ready sound c (item_key p (front -ℤ pos 1)) ≡ true
        → (c' : Cache h) × (push h v p "front" expire tag c ≡ (ok (front -ℤ pos 1), c'))
          × IsQueue sound p c' (front -ℤ pos 1) (v ∷ items)
          × ((j : String) → ready sound c' j ≡ ready sound c j)
    unfolding push push_at
    push_front can =
        let back = front +ℤ pos (length items) in
        let less = front -ℤ pos 1 in
        let (c₁, e₁, w₁) = store_writes sound (item_key p less) v expire tag c can plain in
        let (c₂, e₂, k₂) =
          write_counters_lem c₁ back less (w₁.opens _ ∙ q.takes_counter)
            (w₁.opens _ ∙ q.takes_front) in
        let longer : back ≡ less +ℤ pos (length (v ∷ items)) = omega int_laws in
        let next : front ≡ less +ℤ pos 1 = omega int_laws in
        (
          c₂,
          rw (
            read_counter_lem sound p c (counter_key p) back q.back_counter,
            read_counter_lem sound p c (front_key p) front q.front_counter,
            e₁,
            e₂,
          ),
          Counted-IsQueue c₁ c₂ back less (v ∷ items) longer k₂
              (
                w₁.views _ ∙ rw (eq_refl (item_key p less)),
                rw (← next) (
                    Holds-write sound p front items w₁
                      (λ n lt e. before-ne front n (item_key_inj p _ _ e)) q.held),
              )
              (w₁.opens _ ∙ q.takes_counter) (w₁.opens _ ∙ q.takes_front),
          λ j. k₂.opens j ∙ w₁.opens j,
        )
