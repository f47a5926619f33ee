-- ===== src/Witness/Reference.antt =====
-- A platform that keeps its promises: rows in a dict, and every key but the empty one is taken.
use diskcache_rs.Base.{
  ℕ, ◌*◌, ◌+◌, suc, String, ◌≡◌, refl, ap, Bool, true, false, not, Option, none, some, List, [],
  ◌∷◌, str_eq, is_some, ◌==◌, ◌&&◌, if◌then◌else◌, length,
}
use diskcache_rs.Dict
use diskcache_rs.Dict.{Dict, get-put, get-remove}
use diskcache_rs.Exec.{Result, ok, raised, runtime_error, type_error, value_error}
use diskcache_rs.Host.{Host}
use diskcache_rs.Host.Sound.{IsSound}
use diskcache_rs.Value.{text, Value, Bytes, is_plain}
unfoldable use diskcache_rs.Witness.Pickle.{encode, height}
use diskcache_rs.Witness.Pickle.{decode, decode-pickle, from_codes}

abbrev pub takes : String → Bool
takes k = not (str_eq k "")

abbrev pub Rows : Type 0
Rows = Dict Bytes

abbrev pub when : {A : Type 0} → String → A → Rows → Rows → Result A × Rows
when k a s s' = if takes k then (ok a, s') else (raised runtime_error, s)

abbrev pub put_all : Rows → List (String × Bytes) → Rows
put_all s [] = s
put_all s ((k, d) ∷ more) = put_all (Dict.put s k d) more

unfoldable pub same : List ℕ → List ℕ → Bool
same [] [] = true
same (a ∷ l) (b ∷ m) = a == b && same l m
same _ _ = false

abbrev pub result_of : Option (Value × List ℕ) → Result Value
result_of none = raised value_error
result_of (some (v, rest)) = ok v

-- JSON is the text itself, and UTF-8 the numbers of the characters.
abbrev pub decoded_text : Option String → Result String
decoded_text none = raised value_error
decoded_text (some s) = ok s

unfoldable pub loads : Bytes → Result Value
loads [] = raised value_error
loads (f ∷ d) = result_of (decode f d)

unfoldable pub dumps : Value → Result Bytes
dumps v = if is_plain v then ok (suc (height v) ∷ encode v) else raised type_error

pub loads-dumps : (v : Value) → is_plain v ≡ true → loads (suc (height v) ∷ encode v) ≡ ok v
unfolding loads
loads-dumps v p = ap result_of (decode-pickle v p)

pub get-empty : (j : String) → Dict.get {V = Bytes} [] j ≡ none
unfolding Dict.get
get-empty j = refl

unfoldable pub reference : Host
unfolding loads dumps
reference = record {
  State = Rows;
  get = λ s k. if takes k then ok (Dict.get s k) else raised runtime_error;
  set = λ s k d e t. when k tt s (Dict.put s k d);
  set_many = λ s l e t. (ok tt, put_all s l);
  delete = λ s k. when k (is_some (Dict.get s k)) s (Dict.remove s k);
  exists = λ s k. if takes k then ok (is_some (Dict.get s k)) else raised runtime_error;
  keys = λ s. ok (Dict.keys s);
  clear = λ s. (ok tt, []);
  stats = λ s. ok (("size", length s) ∷ []);
  size = λ s. ok (length s);
  vacuum = λ s. (ok tt, s);
  dumps = dumps;
  loads = loads;
  json_loads = λ t. ok (text t);
  decode = λ d. decoded_text (from_codes d);
  equal = λ v w. same (encode v) (encode w);
  parse_int = λ v. raised type_error;
  clock = λ n. 1700000000000000 + n * 1000;
}

abbrev pub by_row : Rows → String → Option Bytes
by_row s k = Dict.get s k

unfoldable pub reference-IsSound : IsSound reference
unfolding reference loads dumps
reference-IsSound = record {
  rows = by_row;
  accepts = takes;
  get_row = λ s k a. rw (a) refl;
  get_refused = λ s k a. rw (a) refl;
  exists_row = λ s k a. rw (a) refl;
  exists_refused = λ s k a. rw (a) refl;
  set_ok = λ s k d e t a. rw (a) refl;
  rows-set = λ s k j d e t a. rw (a) (get-put s k j d);
  set_refused = λ s k d e t a. rw (a) refl;
  delete_ok = λ s k a. rw (a) refl;
  rows-delete = λ s k j a. rw (a) (get-remove s k j);
  delete_refused = λ s k a. rw (a) refl;
  names = Dict.keys;
  keys_names = λ s. refl;
  clear_ok = λ s. refl;
  rows-clear = λ s j. get-empty j;
  pickled = λ v. suc (height v) ∷ encode v;
  dumps_plain = λ v p. rw (p) refl;
  loads_pickled = λ v p. loads-dumps v p;
}
