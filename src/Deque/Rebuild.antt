-- ===== src/Deque/Rebuild.antt =====
-- The methods that read all values, clear the cache and append what they computed.
use mathlib.Core.List.{append-nil, append_assoc}
use native.Mathlib.Nat.{add-zero}
use diskcache_rs.Base.{
  ℕ, suc, ◌+◌, ◌≤◌, ◌<◌, String, ◌≡◌, refl, ◌∙◌, ap, Bool, true, false, ◌&&◌, Option, none, some,
  List, [], ◌∷◌, ◌++◌, arith, length, length-append, ltb, Option-cases, inl, inr,
}
use diskcache_rs.Base.Int.{ℤ, pos, ◌+ℤ◌, int_laws}
use diskcache_rs.Cache.Laws.{ready}
use diskcache_rs.Cache.Laws.Erase.{clear_clears}
use diskcache_rs.Cache.Queue.{item_key, counter_key, front_key, counter}
use diskcache_rs.Cache.Queue.Push.{push_back}
use diskcache_rs.Cache.State.{Cache}
use diskcache_rs.Cache.View.{view}
use diskcache_rs.Deque.{append, extend, clear, rebuild}
use diskcache_rs.Deque.Items.{IsDeque}
use diskcache_rs.Deque.Ends.{too_long_lem}
use diskcache_rs.Exec.{ok}
use diskcache_rs.Host.{Host}
use diskcache_rs.Host.Sound.{IsSound}
use diskcache_rs.Value.{Value, is_plain}

-- a number of values that the maximum length allows
abbrev pub Fits : Option ℕ → ℕ → Type 0
Fits none n = Unit {0}
Fits (some m) n = n ≤ m

unfoldable pub all_plain : List Value → Bool
all_plain [] = true
all_plain (v ∷ vs) = is_plain v && all_plain vs

pub Fits-le : (maxlen : Option ℕ) (n m : ℕ) → Fits maxlen n → m ≤ n → Fits maxlen m
Fits-le none n m fits le = tt
Fits-le (some k) n m fits le = omega arith

from_zero : (n : ℕ) → pos 0 +ℤ pos (0 + n) ≡ pos n
from_zero n = omega int_laws

module _ {h : Host} (sound : IsSound h) where
  append-Fits :
      (maxlen : Option ℕ) (c : Cache h) (front : ℤ) (items : List Value) (v : Value)
      → IsDeque sound c front items
      → Fits maxlen (length items + 1)
      → is_plain v ≡ true
      → ready sound c (item_key none (front +ℤ pos (length items))) ≡ true
      → (c' : Cache h) × (append h maxlen v c ≡ (ok tt, c'))
        × IsDeque sound c' front (items ++ v ∷ [])
        × ((j : String) → ready sound c' j ≡ ready sound c j)
  unfolding append
  append-Fits none c front items v q fits plain can =
      let (c', e, q', opens) = push_back sound none c front items q v plain none none can in
      (c', rw e, q', opens)
  append-Fits (some m) c front items v q fits plain can =
      let (c', e, q', opens) = push_back sound none c front items q v plain none none can in
      let n : ltb m (length (items ++ v ∷ [])) ≡ false =
        ground (arith, length-append {0} items (v ∷ [])) in
      (c', rw (e, too_long_lem sound c' front m _ q', n), q', opens)

  extend-Fits :
      (maxlen : Option ℕ) (c : Cache h) (front : ℤ) (items vs : List Value)
      → IsDeque sound c front items
      → Fits maxlen (length items + length vs)
      → all_plain vs ≡ true
      → ((n : ℕ)
          → n < length vs
          → ready sound c (item_key none (front +ℤ pos (length items + n))) ≡ true)
      → (c' : Cache h) × (extend h maxlen vs c ≡ (ok tt, c')) × IsDeque sound c' front (items ++ vs)
  unfolding extend all_plain
  extend-Fits maxlen c front items [] q fits plain can = (c, refl, rw append-nil q)
  extend-Fits maxlen c front items (v ∷ vs) q fits plain can =
      let (c₁, e₁, q₁, opens) =
        append-Fits maxlen c front items v q (Fits-le maxlen _ _ fits (omega arith)) (ground arith)
          (rw (add-zero (length items)) at (can 0 (omega arith))) in
      let len₁ : length (items ++ v ∷ []) ≡ length items + 1 = length-append {0} items (v ∷ []) in
      let (c₂, e₂, q₂) =
        extend-Fits maxlen c₁ front (items ++ v ∷ []) vs q₁ (Fits-le maxlen _ _ fits (omega arith))
          (ground arith)
          (λ n lt.
            opens _
            ∙ ap (λ k. ready sound c (item_key none (front +ℤ pos k))) (omega arith)
            ∙ can (suc n) (omega arith)) in
      (c₂, rw (e₁, e₂), rw (append_assoc items (v ∷ []) vs) at q₂)

  -- An open cache with nothing in it is the empty deque.
  IsDeque-empty :
      (c : Cache h)
      → ((j : String) → view sound c j ≡ none)
      → ready sound c (counter_key none) ≡ true
      → ready sound c (front_key none) ≡ true
      → IsDeque sound c (pos 0) []
  unfolding counter ◌+ℤ◌
  IsDeque-empty c views rb rf = record {
    back_counter = rw (views (counter_key none));
    front_counter = rw (views (front_key none));
    held = tt;
    takes_counter = rb;
    takes_front = rf;
  }

  closed-takes : (c : Cache h) (k : String) → c.rust ≡ none → ¬ (ready sound c k ≡ true)
  unfolding ready
  closed-takes c k closed can = ground arith

  -- the same on any open cache that takes the keys of the two counters
  pub rebuild_open :
      (maxlen : Option ℕ) (c : Cache h) (s : h.State) (vs : List Value)
      → c.rust ≡ some s
      → ready sound c (counter_key none) ≡ true
      → ready sound c (front_key none) ≡ true
      → Fits maxlen (length vs)
      → all_plain vs ≡ true
      → ((n : ℕ) → n < length vs → ready sound c (item_key none (pos n)) ≡ true)
      → (c' : Cache h) × (rebuild h maxlen vs c ≡ (ok tt, c')) × IsDeque sound c' (pos 0) vs
  unfolding rebuild clear
  rebuild_open maxlen c s vs open_ back front fits plain can =
      let (c₁, e₁, k) = clear_clears sound c s open_ in
      let (c₂, e₂, q₂) =
        extend-Fits maxlen c₁ (pos 0) [] vs
          (IsDeque-empty c₁ k.views (k.opens _ ∙ back) (k.opens _ ∙ front))
          (Fits-le maxlen _ _ fits (omega arith)) plain
          (λ n lt.
            k.opens _ ∙ ap (λ i. ready sound c (item_key none i)) (from_zero n) ∙ can n lt) in
      (c₂, rw (e₁, e₂), q₂)

  -- If a deque's maximum allows a list of plain values and the keys of their indices from 0 are
  -- taken, then clearing the deque and appending the list succeeds and leaves exactly that list,
  -- numbered from 0.
  pub rebuild_lem :
      (maxlen : Option ℕ) (c : Cache h) (front : ℤ) (items vs : List Value)
      → IsDeque sound c front items
      → Fits maxlen (length vs)
      → all_plain vs ≡ true
      → ((n : ℕ) → n < length vs → ready sound c (item_key none (pos n)) ≡ true)
      → (c' : Cache h) × (rebuild h maxlen vs c ≡ (ok tt, c')) × IsDeque sound c' (pos 0) vs
  rebuild_lem maxlen c front items vs q fits plain can = elim (Option-cases c.rust) [
    | inl closed ↦ absurd (closed-takes c (counter_key none) closed q.takes_counter)
    | inr (s, open_) ↦ rebuild_open maxlen c s vs open_ q.takes_counter q.takes_front fits plain can
  ]
