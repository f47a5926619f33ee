-- ===== src/Cache/Queue/Keys.antt =====
-- The keys of the entries and the counters of one queue, `cache_key`, `counter_key` and `front_key`
-- of `push` and `pull`.
use text.Mathlib.TextLemmas.{append_cancel_left, append_cancel_right, append_assoc}
use diskcache_rs.Base.{
  String, ◌≡◌, refl, sym, ◌∙◌, ap, ◌≢◌, false, Option, none, some, arith, str_eq, eq_iff,
}
use diskcache_rs.Base.Int.{ℤ}
use diskcache_rs.Cache.Queue.{queue_prefix, counter_key, front_key, item_key}
use diskcache_rs.Text.{◌<>◌, str, str_inj, str-ne-underscore, differ}

pub str_eq_of_ne : (s t : String) → s ≢ t → str_eq s t ≡ false
str_eq_of_ne s t h = ground (arith, eq_iff s t)

pub item_key_inj : (p : Option String) (i j : ℤ) → item_key p i ≡ item_key p j → i ≡ j
unfolding item_key
item_key_inj none i j e = str_inj i j (append_cancel_left "__queue__" _ _ e)
item_key_inj (some p) i j e = str_inj i j (append_cancel_left "-" _ _ (append_cancel_left p _ _ e))

item_key-ends : (p : Option String) (i : ℤ) (s : String) → item_key p i ≢ s <> "_"
unfolding item_key
item_key-ends none i s e = str-ne-underscore i "__queue__" s e
item_key-ends (some p) i s e = str-ne-underscore i (p <> "-") s (append_assoc p "-" (str i) ∙ e)

-- the last underscore of "__", in front
underscore : (s q : String) → s <> (q <> "__") ≡ (s <> (q <> "_")) <> "_"
underscore s q =
    ap (λ t. s <> t) (sym (append_assoc q "_" "_")) ∙ sym (append_assoc s (q <> "_") "_")

pub item-ne-counter : (p : Option String) (i : ℤ) → item_key p i ≢ counter_key p
unfolding counter_key
item-ne-counter p i e = item_key-ends p i _ (e ∙ underscore "__queue_counter_" (queue_prefix p))

pub item-ne-front : (p : Option String) (i : ℤ) → item_key p i ≢ front_key p
unfolding front_key
item-ne-front p i e = item_key-ends p i _ (e ∙ underscore "__queue_front_" (queue_prefix p))

pub counter-ne-front : (p : Option String) → counter_key p ≢ front_key p
unfolding counter_key front_key
counter-ne-front p e =
    differ "__queue_counter_" "__queue_front_" refl
      (append_cancel_right _ _ (queue_prefix p <> "__") e)
