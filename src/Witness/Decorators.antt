-- ===== src/Witness/Decorators.antt =====
-- The theorems on the recipes that are no locks, on caches that are empty or hold one result.
use diskcache_rs.Base.{
  ℕ, ◌+◌, ◌-◌, ◌*◌, ◌≤◌, String, ◌≡◌, refl, true, false, none, List, [], ◌∷◌, str_eq, arith,
  Option-cases, inl, inr,
}
use diskcache_rs.Base.Int.{pos, negsuc, ◌+ℤ◌}
use diskcache_rs.Cache.Codec.{auto_deserialize}
use diskcache_rs.Cache.State.{Cache}
use diskcache_rs.Cache.Laws.{ready}
use diskcache_rs.Cache.View.{has, row, view, decoded}
use diskcache_rs.Dict
use diskcache_rs.Exec.{Exec, Result, ok, raised, type_error, pure, ◌>>◌}
use diskcache_rs.Recipes.Average
use diskcache_rs.Recipes.Average.{Numbers}
use diskcache_rs.Recipes.Average.Mean.{add_each, Adds, no_more, one, mean_of, averages}
use diskcache_rs.Recipes.Barrier
use diskcache_rs.Recipes.Barrier.{finished, barrier_runs}
use diskcache_rs.Recipes.Mutex.{Params}
use diskcache_rs.Recipes.Stampede.{Options, thread_key, cache_key}
use diskcache_rs.Recipes.Stampede.Once.{Holds, calls, one_thread}
use diskcache_rs.Recipes.Throttle.{Rate, decorate, wrapper}
use diskcache_rs.Recipes.Throttle.Bound.{IsTally, least}
use diskcache_rs.Recipes.Throttle.Calls.{Rising, done, next, passed, passed_bound, waits_once}
use diskcache_rs.Value.{Value, int, text, pair, is_plain}
use diskcache_rs.Witness.Pickle.{encode, decode, height}
use diskcache_rs.Witness.Reference.{reference, reference-IsSound}
use diskcache_rs.Witness.Samples.{empty, opened, pickle_row}

-- Whole numbers, and a mean that is a pair of the total and the count.
abbrev sum_of : Value → Value → Result Value
sum_of (int i) (int j) = ok (int (i +ℤ j))
sum_of v w = raised type_error

abbrev numbers : Numbers
numbers = record {
  zero = int (pos 0);
  plus = sum_of;
  divide = λ a b. ok (pair a b);
  unpack = λ v. raised type_error;
}

abbrev latency : Params
latency = record { key = "latency"; expire = none; tag = none }

latency_takes : ready reference-IsSound empty "latency" ≡ true
unfolding ready reference-IsSound
latency_takes = refl

latency_free : has reference-IsSound empty "latency" ≡ false
unfolding row reference-IsSound Dict.get
latency_free = refl

two_sums : Adds numbers (int (pos 0)) (int (pos 8) ∷ int (negsuc 2) ∷ []) (int (pos 5))
unfolding is_plain ◌+ℤ◌
two_sums = one (int (pos 8)) refl refl (one (int (negsuc 2)) refl refl (no_more refl))

averages_example :
    (c' : Cache reference) × (add_each reference numbers latency
        (int (pos 8) ∷ int (negsuc 2) ∷ [])
        empty
      ≡ (ok tt, c'))
    × (Average.get reference numbers latency c'
        ≡ (mean_of reference-IsSound numbers latency (int (pos 5)) 2, c'))
    × (c'' : Cache reference) × (Average.pop reference numbers latency c'
        ≡ (mean_of reference-IsSound numbers latency (int (pos 5)) 2, c''))
    × (has reference-IsSound c'' "latency" ≡ false)
averages_example =
    averages reference-IsSound numbers latency (int (pos 8) ∷ int (negsuc 2) ∷ []) empty
      (int (pos 5)) latency_takes latency_free two_sums

-- Two calls in a second.
abbrev rate : Rate
rate = record { key = "calls"; count = 2; window = 1000000; expire = none; tag = none }

rate_takes : ready reference-IsSound empty "calls" ≡ true
unfolding ready reference-IsSound
rate_takes = refl

three_times : Rising 100 (100 ∷ 200 ∷ 300 ∷ []) 500100
three_times =
    next 100 (omega arith) (next 200 (omega arith) (next 300 (omega arith) (done (omega arith))))

passed_bound_example :
    (n : ℕ) × (c' : Cache reference) × ((decorate reference rate 100
          >> passed reference rate (100 ∷ 200 ∷ 300 ∷ []))
        empty
      ≡ (ok n, c'))
    × (n * 1000000 ≤ 2 * 1000000 + (500100 - 100) * 2)
passed_bound_example =
    passed_bound reference-IsSound rate (omega arith) (100 ∷ 200 ∷ 300 ∷ []) empty 100 500100
      rate_takes refl three_times

-- The tally is used up at the time 100.
abbrev used_up : Cache reference
used_up = opened (("calls", pickle_row (pair (int (pos 100)) (int (pos 0)))) ∷ [])

used_up-IsTally : IsTally reference-IsSound rate used_up 100 0
unfolding ready view row decoded reference reference-IsSound Dict.get pickle_row auto_deserialize
    decode encode height
used_up-IsTally = record { takes = refl; holds = refl }

-- A sleep that takes as many microseconds as the parts that are missing.
abbrev plain_sleep : ℕ → ℕ → ℕ → ℕ
plain_sleep now missing parts = now + missing

long_enough :
    (now missing parts : ℕ) → 1 ≤ parts → missing ≤ (plain_sleep now missing parts - now) * parts
long_enough now missing parts le =
    let same : now + missing - now ≡ missing = omega arith in
    rw (same) (omega (arith, least parts missing le))

waits_once_example :
    (c' : Cache reference) × (wrapper reference rate plain_sleep 5 200 used_up ≡ (ok true, c'))
waits_once_example =
    waits_once reference-IsSound rate (omega arith) plain_sleep used_up 100 0 200 3 used_up-IsTally
      (omega arith) (λ now missing rate. omega arith) long_enough

-- A function that reads nothing, and leaves the cache alone.
abbrev pub report : Exec (Cache reference) Value
report = pure (text "done")

latency_stays :
    (d : Cache reference)
    → has reference-IsSound d "latency" ≡ true
    → ready reference-IsSound d "latency" ≡ true
unfolding row ready reference-IsSound
latency_stays d there = elim (Option-cases d.rust) [
  | inl closed ↦ absurd (ground arith)
  | inr (s, open_) ↦ rw (open_) refl
]

barrier_runs_example :
    (d : Cache reference) × (c' : Cache reference) × (has reference-IsSound d "latency" ≡ true)
    × (Barrier.wrapper latency 3 report empty ≡ (finished (report d).0, c'))
    × (has reference-IsSound c' "latency" ≡ false)
barrier_runs_example =
    barrier_runs reference-IsSound latency 2 report empty latency_takes latency_free latency_stays

abbrev first_or_more : List Value → String
first_or_more [] = "()"
first_or_more (v ∷ []) = "(a,)"
first_or_more (v ∷ w ∷ vs) = "(a, b)"

abbrev pub options : Options
options = record {
  expire = 60000000;
  tag = none;
  eno = 7;
  repr = first_or_more;
  fresh = λ delta ttl. false;
}

-- The result 3, which took a second, has no mark yet.
abbrev pub late : Cache reference
late = opened (("memoize_stampede:(a,)", pickle_row (pair (int (pos 3)) (int (pos 1000000)))) ∷ [])

late_apart : str_eq (thread_key options (text "f" ∷ [])) (cache_key options (text "f" ∷ [])) ≡ false
unfolding thread_key cache_key
late_apart = refl

late-Holds : Holds reference-IsSound options (text "f" ∷ []) late (int (pos 3)) (pos 1000000)
unfolding ready view row decoded reference reference-IsSound Dict.get pickle_row auto_deserialize
    decode encode height cache_key
late-Holds = refl

pub late_free : has reference-IsSound late (thread_key options (text "f" ∷ [])) ≡ false
unfolding row reference reference-IsSound Dict.get thread_key cache_key
late_free = refl

late_takes : ready reference-IsSound late (thread_key options (text "f" ∷ [])) ≡ true
unfolding ready reference-IsSound thread_key cache_key
late_takes = refl

one_thread_example :
    (c' : Cache reference) × (calls reference-IsSound options
        (text "f" ∷ [])
        (int (pos 3))
        (pos 1000000)
        (λ ttl. refl)
        (report ∷ report ∷ report ∷ [])
        late
      ≡ (ok ((int (pos 3), true) ∷ (int (pos 3), false) ∷ (int (pos 3), false) ∷ []), c'))
one_thread_example =
    one_thread reference-IsSound options (text "f" ∷ []) (int (pos 3)) (pos 1000000) (λ ttl. refl)
      report (report ∷ report ∷ []) late late_apart late-Holds late_free late_takes
