-- ===== src/Witness/Backends.antt =====
-- The theorems on the Django backend, with keys made as Django makes them from a prefix.
use diskcache_rs.Base.{◌≡◌, refl, true, none, some}
use diskcache_rs.Cache.Laws.{ready}
use diskcache_rs.Cache.State.{Cache}
use diskcache_rs.Cache.View.{view, row, decoded}
use diskcache_rs.Dict
use diskcache_rs.Django
use diskcache_rs.Django.{Backend}
use diskcache_rs.Django.Laws.{add_misses}
use diskcache_rs.Exec.{ok}
use diskcache_rs.Text.{◌<>◌, differ}
use diskcache_rs.Value.{null, text, is_plain}
use diskcache_rs.Witness.Reference.{reference, reference-IsSound}
use diskcache_rs.Witness.Samples.{empty}

abbrev backend : Backend
backend = record {
  Timeout = Unit {0};
  make_and_validate_key = λ key version. ok (":1:" <> key);
  get_backend_timeout = λ timeout now. some now;
}

empty-ready_twice : ready reference-IsSound empty ":1::1:a" ≡ true
unfolding ready reference-IsSound
empty-ready_twice = refl

nothing_there : view reference-IsSound empty ":1:a" ≡ none
unfolding view row decoded reference-IsSound Dict.get
nothing_there = refl

add_misses_example :
    (c' : Cache reference) × (Django.add reference backend "a" (text "v") tt none empty
      ≡ (ok true, c'))
    × (Django.get reference backend "a" null none c' ≡ (ok null, c'))
    × (view reference-IsSound c' ":1::1:a" ≡ some (text "v"))
unfolding is_plain
add_misses_example =
    add_misses reference-IsSound backend "a" ":1:a" ":1::1:a" (text "v") null tt none empty refl
      refl (differ _ _ refl) empty-ready_twice refl nothing_there
