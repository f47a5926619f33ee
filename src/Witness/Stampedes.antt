-- ===== src/Witness/Stampedes.antt =====
-- The theorem on interleaved calls under `memoize_stampede`, applied to two calls when the result is
-- late and its mark goes between them.
use diskcache_rs.Base.{ℕ, ◌+◌, ◌≡◌, refl, false, List, [], ◌∷◌, str_eq, if◌then◌else◌}
use diskcache_rs.Cache.State.{Cache}
use diskcache_rs.Recipes.Stampede.{cache_key, thread_key, wrapper}
use diskcache_rs.Recipes.Stampede.Marks.{Leaves, started}
use diskcache_rs.Recipes.Stampede.Turns
use diskcache_rs.Recipes.Stampede.Turns.{Reach, Counts, Reach-Counts}
use diskcache_rs.Value.{Value, text}
use diskcache_rs.Witness.Decorators.{report, options, late, late_free}
use diskcache_rs.Witness.Reference.{reference, reference-IsSound}

abbrev key : List Value
key = text "f" ∷ []

report-Leaves : Leaves reference-IsSound options key report
report-Leaves c = refl

key_apart : str_eq (cache_key options key) (thread_key options key) ≡ false
unfolding thread_key cache_key
key_apart = refl

abbrev called : Cache reference → Cache reference
called c = (wrapper reference options key report c).1

abbrev threads : Cache reference → ℕ → ℕ
threads c n = if started (wrapper reference options key report c).0 then n + 1 else n

-- two calls in turn
two_calls :
    Reach reference-IsSound options key
      (called (called late))
      (threads (called late) (threads late 0))
      0
two_calls =
    Turns.later (Turns.later (Turns.start late late_free) (Turns.calls report report-Leaves))
      (Turns.calls report report-Leaves)

Reach-Counts_example :
    Counts reference-IsSound options key
      (called (called late))
      (threads (called late) (threads late 0))
      0
Reach-Counts_example = Reach-Counts reference-IsSound options key key_apart two_calls
