-- ===== src/Fast/Open.antt =====
-- The constructors of `FastCache` and `FastFanoutCache`. How the extension module opens a directory
-- is a parameter.
use native.Mathlib.Nat.{mul-div-le}
use diskcache_rs.Base.{
  ℕ, zero, suc, ◌+◌, ◌*◌, ◌/◌, ◌≤◌, ◌≡◌, String, Option, none, some, [], ◌∷◌, ◌==◌, arith,
  Bool-cases, inl, inr, if◌then◌else◌,
}
use diskcache_rs.Base.Int.{ℤ}
use diskcache_rs.Exec.{Result, ok, raised, and_then, zero_division_error}
use diskcache_rs.Fast.{FastCache}
use diskcache_rs.Fast.Shards.{FastFanout}
use diskcache_rs.Opening.{shard_name}
use diskcache_rs.Pickled.Backend.{Pickles}
use diskcache_rs.Text.{◌<>◌}

-- `max_size // shards`, if there is a maximum
unfoldable pub shard_size : Option ℕ → ℕ → Result (Option ℕ)
shard_size none shards = ok none
shard_size (some m) shards =
    if shards == 0 then raised zero_division_error else ok (some (m / shards))

-- `opened directory max_size default_ttl_seconds` is a new object of the extension module.
module _ (x : Pickles) (opened : String → Option ℕ → Option ℤ → Result x.State) where
  unfoldable pub open_fast : String → Option ℕ → Option ℤ → Result (FastCache x)
  open_fast directory max_size default_ttl =
      and_then (opened directory max_size default_ttl) λ s. ok (record { rust = s; reads = 0 })

  -- the loop over the shards, from the shard `i` on
  unfoldable pub open_fast_shards : String → Option ℕ → Option ℤ → ℕ → ℕ → Result (FastFanout x)
  unfolding open_fast
  open_fast_shards directory max_size default_ttl i zero = ok []
  open_fast_shards directory max_size default_ttl i (suc n) =
      let rest = open_fast_shards directory max_size default_ttl (i + 1) n in
      and_then (open_fast (directory <> ("/" <> shard_name i)) max_size default_ttl)
        λ c. and_then rest λ cs. ok (c ∷ cs)

  unfoldable pub open_fast_fanout : String → ℕ → Option ℕ → Option ℤ → Result (FastFanout x)
  unfolding shard_size open_fast_shards
  open_fast_fanout directory shards max_size default_ttl =
      and_then (shard_size max_size shards)
        λ size. open_fast_shards directory size default_ttl 0 shards

-- The sizes of the shards do not add up to more than the maximum.
pub shard_size-le : (m shards n : ℕ) → shard_size (some m) shards ≡ ok (some n) → shards * n ≤ m
unfolding shard_size
shard_size-le m shards n e = elim (Bool-cases (shards == 0)) [
  | inl zero_ ↦ absurd (ground arith)
  | inr some_ ↦ let size : n ≡ m / shards = ground arith in rw (size) (mul-div-le m shards)
]
