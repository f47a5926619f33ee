-- ===== src/Witness/Mappings.antt =====
-- The theorems on expiry and the mapping methods, applied to small caches.
use diskcache_rs.Base.{
  String, ◌≡◌, refl, true, false, none, some, [], ◌∷◌, str_eq, eq_iff, Bool-cases, inl, inr, arith,
}
use diskcache_rs.Cache.State.{Cache}
use diskcache_rs.Cache.Laws.{ready, IsErase}
use diskcache_rs.Cache.Laws.Expire.{expire_lem, is_due, IsExpired}
use diskcache_rs.Cache.Laws.Picked.{distinct}
use diskcache_rs.Cache.Listing.{sorted, first_or_last}
use diskcache_rs.Text.Order.{str_leb}
use diskcache_rs.Cache.Memo.{memoized, memoized-hit}
use diskcache_rs.Cache.Remove.{expire, expired_keys}
use diskcache_rs.Cache.View.{has, row, view, get_or}
use diskcache_rs.Dict
use diskcache_rs.Exec.{ok, raise, value_error}
use diskcache_rs.Index
use diskcache_rs.Index.Laws.{popitem_lem}
use diskcache_rs.Value.{null, text}
use diskcache_rs.Witness.Reference.{reference, reference-IsSound, Rows}
use diskcache_rs.Witness.Samples.{pickle_row}

abbrev dated_rows : Rows
dated_rows = ("b", pickle_row (text "late")) ∷ ("a", pickle_row (text "early")) ∷ []

abbrev dated : Cache reference
unfolding reference
dated = record {
  rust = some dated_rows;
  expire_times = ("a", 5) ∷ ("b", 9) ∷ [];
  tags = [];
  depth = 0;
  reads = 0;
}

dated_takes :
    (k : String)
    → is_due 7 (Dict.get dated.expire_times k) ≡ true
    → ready reference-IsSound dated k ≡ true
unfolding ready reference-IsSound Dict.get
dated_takes k due = elim (Bool-cases (str_eq k "")) [
  | inl same ↦ let e : k ≡ "" = (eq_iff k "").0 same in absurd (ground (arith, rw (e) at due))
  | inr other ↦ rw other
]

expire_lem_example :
    (c' : Cache reference) × (expire reference (some 7) dated ≡ (ok 1, c'))
    × IsExpired reference-IsSound (λ j. is_due 7 (Dict.get dated.expire_times j)) dated c'
unfolding distinct Dict.get expired_keys reference
expire_lem_example = expire_lem reference-IsSound 7 dated refl dated_takes

dated_takes_a : ready reference-IsSound dated "a" ≡ true
unfolding ready reference-IsSound
dated_takes_a = refl

dated-has : has reference-IsSound dated "a" ≡ true
unfolding row reference-IsSound Dict.get
dated-has = refl

memoized-hit_example :
    memoized reference "a" none (raise value_error) dated
    ≡ (ok (get_or (view reference-IsSound dated "a") null), dated)
memoized-hit_example = memoized-hit reference-IsSound "a" none (raise value_error) dated dated-has

popitem_lem_example :
    (c' : Cache reference) × (Index.popitem reference false dated
      ≡ (ok ("a", get_or (view reference-IsSound dated "a") null), c'))
    × IsErase reference-IsSound dated "a" c'
unfolding sorted first_or_last str_leb reference-IsSound
popitem_lem_example =
    popitem_lem reference-IsSound false dated dated_rows "a" refl refl dated_takes_a dated-has
