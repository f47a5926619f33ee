-- ===== src/Cache/Queue/Pull.antt =====
-- `pull` and `peek` on a queue that a cache holds.
use diskcache_rs.Base.{
  ℕ, suc, String, ◌≡◌, refl, sym, ◌∙◌, ap, ◌≢◌, Bool, true, false, Option, some, List, [], ◌∷◌,
  ◌++◌, arith, length, length-append,
}
use diskcache_rs.Base.Int.{ℤ, pos, pos_part, neg_part, ◌+ℤ◌, ◌-ℤ◌, leb_ℤ, int_laws}
use diskcache_rs.Cache.Laws.Erase.{delete_erases}
use diskcache_rs.Cache.Queue.{
  counter_key, front_key, item_key, read_item, pull_at, pull, peek, nothing, Pulled,
}
use diskcache_rs.Cache.Queue.Holds.{
  IsQueue, Holds-erase, Holds-front, read_counter_lem, ready_of_view,
}
use diskcache_rs.Cache.Queue.Keys.{item_key_inj}
use diskcache_rs.Cache.Queue.Push.{write_counters_lem, Counted-IsQueue, past-ne}
use diskcache_rs.Cache.Read.{part}
use diskcache_rs.Cache.State.{Cache}
use diskcache_rs.Cache.View.{view, get_value-view}
use diskcache_rs.Dict
use diskcache_rs.Exec.{ok}
use diskcache_rs.Host.{Host}
use diskcache_rs.Host.Sound.{IsSound}
use diskcache_rs.Value.{Value, null, int}

after-ne : (i : ℤ) (n : ℕ) → i ≢ i +ℤ pos 1 +ℤ pos n
after-ne i n e = omega (int_laws, ap pos_part e, ap neg_part e)

pub leb_nonempty : (i : ℤ) (n : ℕ) → leb_ℤ (i +ℤ pos (suc n)) i ≡ false
unfolding ◌+ℤ◌
leb_nonempty i n = ground arith

pub leb_empty : (i : ℤ) → leb_ℤ (i +ℤ pos 0) i ≡ true
unfolding ◌+ℤ◌
leb_empty i = ground arith

module _ {h : Host} (sound : IsSound h) (p : Option String) (expire_time tag : Bool) where
  -- the reply for the entry at an index
  abbrev pub entry : Cache h → ℤ → Value → Pulled
  entry c i v = record {
    key = int i;
    value = v;
    expire_time = part expire_time (Dict.get c.expire_times (item_key p i));
    tag = part tag (Dict.get c.tags (item_key p i));
  }

  read_item_lem :
      (c : Cache h) (i : ℤ) (v : Value)
      → view sound c (item_key p i) ≡ some v
      → read_item h p i expire_time tag c ≡ (ok (entry c i v), c)
  unfolding read_item
  read_item_lem c i v e = rw (get_value-view sound c (item_key p i) null, e)

  module _ (c : Cache h) (front : ℤ) where
    -- If a cache holds the queue v, items from index front on, then pull at the front returns v
    -- with its index and with the expiration time and tag recorded for its key, as far as they
    -- are asked for, and leaves the queue items, which begins one index later.
    pub pull_front :
        (items : List Value) (default : Value × Value) (v : Value)
        → IsQueue sound p c front (v ∷ items)
        → (c' : Cache h) × (pull h p default "front" expire_time tag c ≡ (ok (entry c front v), c'))
          × IsQueue sound p c' (front +ℤ pos 1) items
    unfolding pull pull_at
    pull_front items default v q =
        let back = front +ℤ pos (suc (length items)) in
        let here = q.held.0 in
        let (c₁, e₁, r₁) =
          delete_erases sound (item_key p front) c (ready_of_view sound p c _ v here) in
        let (c₂, e₂, k₂) =
          write_counters_lem sound p c₁ back (front +ℤ pos 1) (r₁.opens _ ∙ q.takes_counter)
            (r₁.opens _ ∙ q.takes_front) in
        (
          c₂,
          rw (
            read_counter_lem sound p c (counter_key p) back q.back_counter,
            read_counter_lem sound p c (front_key p) front q.front_counter,
            leb_nonempty front (length items),
            read_item_lem c front v here,
            e₁,
            e₂,
          ),
          Counted-IsQueue sound p c₁ c₂ back (front +ℤ pos 1) items (omega int_laws) k₂
              (Holds-erase sound p (front +ℤ pos 1) items r₁
                (λ n lt e. after-ne front n (item_key_inj p _ _ e)) q.held.1)
              (r₁.opens _ ∙ q.takes_counter) (r₁.opens _ ∙ q.takes_front),
        )

    -- If a cache holds the queue items, v from index front on, then pull at the back returns v
    -- with its index and with what is recorded for its key, as far as it is asked for, and leaves
    -- the queue items at the same front.
    pub pull_back :
        (items : List Value) (default : Value × Value) (v : Value)
        → IsQueue sound p c front (items ++ v ∷ [])
        → (c' : Cache h) × (pull h p default "back" expire_time tag c
            ≡ (ok (entry c (front +ℤ pos (length items)) v), c'))
          × IsQueue sound p c' front items
    unfolding pull pull_at
    pull_back items default v q =
        let last = front +ℤ pos (length items) in
        let back = front +ℤ pos (suc (length items)) in
        let more : back ≡ front +ℤ pos (length (items ++ v ∷ [])) =
          omega (int_laws, length-append {0} items (v ∷ [])) in
        let less : back -ℤ pos 1 ≡ last = omega int_laws in
        let (held, here) = Holds-front sound p c front items v q.held in
        let (c₁, e₁, r₁) =
          delete_erases sound (item_key p last) c (ready_of_view sound p c _ v here) in
        let (c₂, e₂, k₂) =
          write_counters_lem sound p c₁ last front (r₁.opens _ ∙ q.takes_counter)
            (r₁.opens _ ∙ q.takes_front) in
        (
          c₂,
          rw (
            read_counter_lem sound p c (counter_key p) back (q.back_counter ∙ ap ok (sym more)),
            read_counter_lem sound p c (front_key p) front q.front_counter,
            leb_nonempty front (length items),
            less,
            read_item_lem c last v here,
            e₁,
            e₂,
          ),
          Counted-IsQueue sound p c₁ c₂ last front items refl k₂
              (Holds-erase sound p front items r₁
                (λ n lt e. past-ne front (length items) n lt (item_key_inj p _ _ e)) held)
              (r₁.opens _ ∙ q.takes_counter) (r₁.opens _ ∙ q.takes_front),
        )

    -- On an empty queue pull returns the default at either side, with None for what else is asked
    -- for, and changes nothing.
    pub pull_empty :
        (default : Value × Value)
        → IsQueue sound p c front []
        → (pull h p default "front" expire_time tag c ≡ (ok (nothing default expire_time tag), c))
          × (pull h p default "back" expire_time tag c ≡ (ok (nothing default expire_time tag), c))
    unfolding pull
    pull_empty default q = (
      rw (
        read_counter_lem sound p c (counter_key p) (front +ℤ pos 0) q.back_counter,
        read_counter_lem sound p c (front_key p) front q.front_counter,
        leb_empty front,
      ),
      rw (
        read_counter_lem sound p c (counter_key p) (front +ℤ pos 0) q.back_counter,
        read_counter_lem sound p c (front_key p) front q.front_counter,
        leb_empty front,
      ),
    )

    -- If a cache holds the queue v, items from index front on, then peek at the front returns v
    -- with its index and with what is recorded for its key, as far as it is asked for, and
    -- changes nothing.
    pub peek_front :
        (items : List Value) (default : Value × Value) (v : Value)
        → IsQueue sound p c front (v ∷ items)
        → peek h p default "front" expire_time tag c ≡ (ok (entry c front v), c)
    unfolding peek
    peek_front items default v q = rw (
      read_counter_lem sound p c (counter_key p) (front +ℤ pos (suc (length items))) q.back_counter,
      read_counter_lem sound p c (front_key p) front q.front_counter,
      leb_nonempty front (length items),
      read_item_lem c front v q.held.0,
    )

    -- If a cache holds the queue items, v from index front on, then peek at the back returns v
    -- with its index and with what is recorded for its key, as far as it is asked for, and
    -- changes nothing.
    pub peek_back :
        (items : List Value) (default : Value × Value) (v : Value)
        → IsQueue sound p c front (items ++ v ∷ [])
        → peek h p default "back" expire_time tag c
          ≡ (ok (entry c (front +ℤ pos (length items)) v), c)
    unfolding peek
    peek_back items default v q =
        let back = front +ℤ pos (suc (length items)) in
        let more : back ≡ front +ℤ pos (length (items ++ v ∷ [])) =
          omega (int_laws, length-append {0} items (v ∷ [])) in
        let less : back -ℤ pos 1 ≡ front +ℤ pos (length items) = omega int_laws in
        rw (
          read_counter_lem sound p c (counter_key p) back (q.back_counter ∙ ap ok (sym more)),
          read_counter_lem sound p c (front_key p) front q.front_counter,
          leb_nonempty front (length items),
          less,
          read_item_lem c (front +ℤ pos (length items)) v
              (Holds-front sound p c front items v q.held).1,
        )
