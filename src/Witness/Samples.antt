-- ===== src/Witness/Samples.antt =====
-- Concrete caches on the reference platform.
use diskcache_rs.Base.{
  suc, String, ◌≡◌, refl, none, some, List, [], ◌∷◌, ◌++◌, true, not, str_eq, eq_iff, inl, inr,
  Bool-cases, arith,
}
use diskcache_rs.Base.Int.{ℤ, pos, ◌+ℤ◌}
use diskcache_rs.Dict
use diskcache_rs.Text.{str, ◌<>◌, append-ne-empty}
use diskcache_rs.Cache.Codec.{pickle_prefix, auto_deserialize, deserialize_legacy, starts_with}
use diskcache_rs.Cache.Laws.{ready}
use diskcache_rs.Cache.Queue.{counter, item_key, counter_key, front_key, queue_prefix}
use diskcache_rs.Cache.Queue.Holds.{IsQueue}
use diskcache_rs.Cache.State.{Cache, int_of}
use diskcache_rs.Cache.View.{view, row, decoded}
use diskcache_rs.Value.{Value, int, text, Bytes}
use diskcache_rs.Witness.Pickle.{encode, height, decode, from_codes}
use diskcache_rs.Witness.Reference.{reference, reference-IsSound, Rows, loads}

abbrev pub opened : Rows → Cache reference
unfolding reference
opened s = record { rust = some s; expire_times = []; tags = []; depth = 0; reads = 0 }

abbrev pub empty : Cache reference
empty = opened []

abbrev pub closed : Cache reference
closed = record { rust = none; expire_times = []; tags = []; depth = 0; reads = 0 }

unfoldable pub pickle_row : Value → Bytes
pickle_row v = pickle_prefix ++ (suc (height v) ∷ encode v)

-- The deque of 7 and "x", with its two counters.
abbrev pub pair_rows : Rows
pair_rows =
    ("__queue__0", pickle_row (int (pos 7)))
    ∷ ("__queue_counter___queue____", pickle_row (int (pos 2)))
    ∷ ("__queue_front___queue____", pickle_row (int (pos 0)))
    ∷ ("__queue__1", pickle_row (text "x"))
    ∷ []

abbrev pub two_values : Cache reference
two_values = opened pair_rows

abbrev pub values : List Value
values = int (pos 7) ∷ text "x" ∷ []

pub two_values-IsQueue : IsQueue reference-IsSound none two_values (pos 0) values
unfolding pickle_row encode height view row decoded auto_deserialize deserialize_legacy starts_with
    reference reference-IsSound counter int_of ready item_key counter_key front_key queue_prefix str
    ◌+ℤ◌ Dict.get loads decode from_codes
two_values-IsQueue = record {
  back_counter = refl;
  front_counter = refl;
  held = (refl, (refl, tt));
  takes_counter = refl;
  takes_front = refl;
}

-- The key of every entry of the deque is taken.
two_ready_count : (t : String) → not (str_eq ("__queue__" <> t) "") ≡ true
two_ready_count t = elim (Bool-cases (str_eq ("__queue__" <> t) "")) [
  | inl same ↦
      absurd (append-ne-empty "__queue__" t (omega arith) ((eq_iff ("__queue__" <> t) "").0 same))
  | inr other ↦ rw other
]

pub two_ready : (i : ℤ) → ready reference-IsSound two_values (item_key none i) ≡ true
unfolding ready item_key reference-IsSound
two_ready i = two_ready_count (str i)
