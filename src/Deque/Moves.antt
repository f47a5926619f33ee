-- ===== src/Deque/Moves.antt =====
-- The calls of a deque, by the method and its arguments, and what they do to a list of values.
use diskcache_rs.Base.{
  ℕ, Bool, true, Option, none, some, List, [], ◌∷◌, ◌++◌, length, reverse, take, leb, ◌==◌,
  if◌then◌else◌,
}
use diskcache_rs.Base.Int.{ℤ, pos}
use diskcache_rs.Cache.State.{Cache}
use diskcache_rs.Deque
use diskcache_rs.Deque.{place, elem_at, without, rotated, mod_int, find, occurrences}
use diskcache_rs.Deque.Ends.{keep_last}
use diskcache_rs.Deque.Items.{present}
use diskcache_rs.Exec.{Exec, Result, ok, raised, index_error, and_then, pure, ◌>>=◌}
use diskcache_rs.Host.{Host}
use diskcache_rs.Value.{Value, is_plain}

pub data Move : Type 0 where
  append : Value → Move
  append_left : Value → Move
  pop : Move
  pop_left : Move
  peek : Move
  peek_left : Move
  len : Move
  iterate : Move
  count : Value → Move
  get_item : ℤ → Move
  delete_item : ℤ → Move
  remove : Value → Move
  reverse_items : Move
  rotate : ℤ → Move

pub data Output : Type 0 where
  done : Output
  one : Value → Output
  many : List Value → Output
  number : ℤ → Output

-- a move that adds none but a plain value
unfoldable pub is_safe : Move → Bool
is_safe (append v) = is_plain v
is_safe (append_left v) = is_plain v
is_safe _ = true

module _ {S A : Type 0} where
  abbrev pub as_output : (A → Output) → Exec S A → Exec S (Output)
  as_output f m = m >>= λ a. pure (f a)

abbrev pub silent : Unit {0} → Output
silent u = done

-- a call of a deque with a maximum length
unfoldable pub move_step : (h : Host) → Option ℕ → Move → Exec (Cache h) Output
move_step h maxlen (append v) = as_output silent (Deque.append h maxlen v)
move_step h maxlen (append_left v) = as_output silent (Deque.append_left h maxlen v)
move_step h maxlen pop = as_output one (Deque.pop h)
move_step h maxlen pop_left = as_output one (Deque.pop_left h)
move_step h maxlen peek = as_output one (Deque.peek h)
move_step h maxlen peek_left = as_output one (Deque.peek_left h)
move_step h maxlen len = as_output number (Deque.len h)
move_step h maxlen iterate = as_output many (Deque.all_items h)
move_step h maxlen (count v) = as_output (λ n. number (pos n)) (Deque.count h v)
move_step h maxlen (get_item i) = as_output one (Deque.get_item h i)
move_step h maxlen (delete_item i) = as_output silent (Deque.delete_item h maxlen i)
move_step h maxlen (remove v) = as_output silent (Deque.remove h maxlen v)
move_step h maxlen reverse_items = as_output silent (Deque.reverse_items h maxlen)
move_step h maxlen (rotate n) = as_output silent (Deque.rotate h maxlen n)

-- the last value, with those before it
unfoldable pub split_last : List Value → Option (List Value × Value)
split_last [] = none
split_last (v ∷ vs) = elim (split_last vs) [
  | none ↦ some ([], v)
  | some (front, w) ↦ some (v ∷ front, w)
]

-- the last and the first values, as many as there may be
abbrev pub last_of : Option ℕ → List Value → List Value
last_of none vs = vs
last_of (some m) vs = keep_last m vs

abbrev pub first_of : Option ℕ → List Value → List Value
first_of none vs = vs
first_of (some m) vs = take m vs

-- a value taken from a list, with the list that is left
abbrev pub taken : Option (List Value × Value) → List Value → Result Output × List Value
taken none vs = (raised index_error, vs)
taken (some (rest, v)) vs = (ok (one v), rest)

abbrev pub shown : Option (List Value × Value) → List Value → Result Output × List Value
shown none vs = (raised index_error, vs)
shown (some (rest, v)) vs = (ok (one v), vs)

unfoldable pub split_first : List Value → Option (List Value × Value)
split_first [] = none
split_first (v ∷ vs) = some (vs, v)

-- a removal at a place of the values that are not None, which drops those that are
abbrev pub cut_at : Result ℕ → List Value → Result Output × List Value
cut_at (raised e) vs = (raised e, vs)
cut_at (ok i) vs = (ok done, without (present vs) i)

unfoldable pub value_at : List Value → ℤ → Result Output
value_at vs i = and_then (place i (length vs)) λ n. and_then (elem_at vs n) λ v. ok (one v)

-- a rotation, which drops the values that are None if it moves any
unfoldable pub turned : ℤ → List Value → List Value
turned n vs =
    if leb (length vs) 1
    then vs
    else (if mod_int n (length vs) == 0 then vs else rotated (mod_int n (length vs)) (present vs))

-- the reply of a move on a list, and the list afterwards
unfoldable pub move_answer : (h : Host) → Option ℕ → Move → List Value → Result Output × List Value
unfolding split_last split_first value_at turned
move_answer h maxlen (append v) vs = (ok done, last_of maxlen (vs ++ v ∷ []))
move_answer h maxlen (append_left v) vs = (ok done, first_of maxlen (v ∷ vs))
move_answer h maxlen pop vs = taken (split_last vs) vs
move_answer h maxlen pop_left vs = taken (split_first vs) vs
move_answer h maxlen peek vs = shown (split_last vs) vs
move_answer h maxlen peek_left vs = shown (split_first vs) vs
move_answer h maxlen len vs = (ok (number (pos (length vs))), vs)
move_answer h maxlen iterate vs = (ok (many (present vs)), vs)
move_answer h maxlen (count v) vs = (ok (number (pos (occurrences h v (present vs)))), vs)
move_answer h maxlen (get_item i) vs = (value_at (present vs) i, vs)
move_answer h maxlen (delete_item i) vs = cut_at (place i (length (present vs))) vs
move_answer h maxlen (remove v) vs = cut_at (find h v (present vs)) vs
move_answer h maxlen reverse_items vs = (ok done, reverse (present vs))
move_answer h maxlen (rotate n) vs = (ok done, turned n vs)
