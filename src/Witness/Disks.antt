-- ===== src/Witness/Disks.antt =====
-- The theorems on what a row holds, with codes that are easy to undo.
use mathlib.Core.Bool.{false≢true}
use diskcache_rs.Base.{ap, String, ◌≡◌, refl, Bool, true, false, [], ◌∷◌}
use diskcache_rs.Base.Int.{negsuc}
use diskcache_rs.Disk
use diskcache_rs.Disk.{Tools}
use diskcache_rs.Disk.Trips.{IsLossless, is_kept, fetch-store}
use diskcache_rs.Exec.{ok, raised, type_error, value_error, and_then, Result}
use diskcache_rs.Value.{Value, null, int, bytes, text, pair, file, other, is_plain}
use diskcache_rs.Witness.Pickle.{codes, from_codes-codes}
use diskcache_rs.Witness.Reference.{reference, reference-IsSound, decoded_text}

abbrev dumps_text : Value → Result String
dumps_text (text s) = ok s
dumps_text v = raised type_error

abbrev is_text : Value → Bool
is_text (text s) = true
is_text v = false

abbrev tools : Tools
tools = record {
  encode = codes;
  json_dumps = dumps_text;
  compress = λ b. 120 ∷ b;
  decompress = λ b. (elim b [ [] ↦ raised value_error | x ∷ rest ↦ ok rest ]);
  to_bytes = λ v. raised type_error;
  to_text = λ v. raised type_error;
  is_float = λ n. true;
}

dumped_text :
    (v : Value)
    → is_text v ≡ true
    → (s : String) × (dumps_text v ≡ ok s) × (reference.json_loads s ≡ ok v)
unfolding reference
dumped_text (text s) t = (s, refl, refl)
dumped_text null t = absurd (false≢true t)
dumped_text (int i) t = absurd (false≢true t)
dumped_text (bytes b) t = absurd (false≢true t)
dumped_text (pair a b) t = absurd (false≢true t)
dumped_text (file b) t = absurd (false≢true t)
dumped_text (other n) t = absurd (false≢true t)

tools-IsLossless : IsLossless reference tools
unfolding reference
tools-IsLossless = record {
  decode-encode = λ s. ap decoded_text (from_codes-codes s);
  decompress-compress = λ b. refl;
  has_json = is_text;
  loads-dumps = dumped_text;
}

fetch-store_example :
    and_then
      (Disk.store reference tools 10 (pair (int (negsuc 4)) (text "x")) false)
      (λ st. Disk.fetch reference tools 10 st.mode st.value false)
    ≡ ok (pair (int (negsuc 4)) (text "x"))
unfolding is_kept is_plain
fetch-store_example =
    fetch-store reference-IsSound tools tools-IsLossless 10 (pair (int (negsuc 4)) (text "x")) refl
