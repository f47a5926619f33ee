-- ===== src/Opening/Names.antt =====
-- The directories of the caches that a `FanoutCache` opens.
use native.Mathlib.Nat.{add-zero}
use text.Mathlib.TextLemmas.{append_cancel_left, append_assoc}
use diskcache_rs.Base.{
  ℕ, zero, suc, ◌+◌, ◌≤◌, ◌<◌, length, Option, some, [], ◌∷◌, refl, ap, String, ◌≡◌, ◌≢◌, sym, ◌∙◌,
  true, false, arith, ltb, if◌then◌else◌, Bool-cases, inl, inr, ◌⊎◌,
}
use diskcache_rs.Base.Int.{pos}
use diskcache_rs.Cache.State.{Cache}
use diskcache_rs.Exec.{ok, Result-cases}
use diskcache_rs.Fanout.{Fanout}
use diskcache_rs.Host.{Host}
use diskcache_rs.Opening.{
  Files, Keywords, min_file_size, open_cache, open_fanout, open_shards, place_of, shard_name,
}
use diskcache_rs.Sharded.Places.{cache_at}
use diskcache_rs.Text.{str, ◌<>◌, str_inj, str-ne-zero}

number_of : (i j : ℕ) → str (pos i) ≡ str (pos j) → i ≡ j
number_of i j e = ground (arith, str_inj (pos i) (pos j) e)

units : (i : ℕ) → ltb i 10 ≡ true → shard_name i ≡ "shard_" <> ("0" <> ("0" <> str (pos i)))
unfolding shard_name
units i small =
    rw (small)
      (append_assoc "shard_0" "0" (str (pos i)) ∙ append_assoc "shard_" "0" ("0" <> str (pos i)))

tens :
    (i : ℕ) → ltb i 10 ≡ false → ltb i 100 ≡ true → shard_name i ≡ "shard_" <> ("0" <> str (pos i))
unfolding shard_name
tens i large small = rw (large, small) (append_assoc "shard_" "0" (str (pos i)))

hundreds : (i : ℕ) → ltb i 10 ≡ false → ltb i 100 ≡ false → shard_name i ≡ "shard_" <> str (pos i)
unfolding shard_name
hundreds i large larger = rw (large, larger)

-- the number of a shard behind the prefix, with the zeros before it
padded : ℕ → String
padded i =
    if ltb i 10
    then "0" <> ("0" <> str (pos i))
    else (if ltb i 100 then "0" <> str (pos i) else str (pos i))

shard_name-padded : (i : ℕ) → shard_name i ≡ "shard_" <> padded i
unfolding padded
shard_name-padded i = elim (Bool-cases (ltb i 10)) [
  | inl one ↦ rw (one) (units i one)
  | inr more ↦ elim (Bool-cases (ltb i 100)) [
    | inl two ↦ rw (more, two) (tens i more two)
    | inr three ↦ rw (more, three) (hundreds i more three)
  ]
]

-- how many zeros stand before a number
padded-cases :
    (i : ℕ)
    → (padded i ≡ "0" <> ("0" <> str (pos i)))
      ⊎ (((10 ≤ i) × (padded i ≡ "0" <> str (pos i))) ⊎ ((100 ≤ i) × (padded i ≡ str (pos i))))
unfolding padded
padded-cases i = elim (Bool-cases (ltb i 10)) [
  | inl one ↦ inl (rw (one))
  | inr more ↦ elim (Bool-cases (ltb i 100)) [
    | inl two ↦ inr (inl (ground arith, rw (more, two)))
    | inr three ↦ inr (inr (ground arith, rw (more, three)))
  ]
]

-- Numbers with different numbers of zeros before them are told apart by the zeros.
padded_inj : (i j : ℕ) → padded i ≡ padded j → i ≡ j
padded_inj i j e = elim (padded-cases i) [
  | inl a ↦ elim (padded-cases j) [
    | inl b ↦
        number_of i j (append_cancel_left "0" _ _ (append_cancel_left "0" _ _ (sym a ∙ e ∙ b)))
    | inr (inl (le, b)) ↦
        absurd (str-ne-zero j _ (omega arith) (sym (append_cancel_left "0" _ _ (sym a ∙ e ∙ b))))
    | inr (inr (le, b)) ↦ absurd (str-ne-zero j _ (omega arith) (sym b ∙ sym e ∙ a))
  ]
  | inr (inl (le, a)) ↦ elim (padded-cases j) [
    | inl b ↦ absurd (str-ne-zero i _ (omega arith) (append_cancel_left "0" _ _ (sym a ∙ e ∙ b)))
    | inr (inl (_, b)) ↦ number_of i j (append_cancel_left "0" _ _ (sym a ∙ e ∙ b))
    | inr (inr (le', b)) ↦ absurd (str-ne-zero j _ (omega arith) (sym b ∙ sym e ∙ a))
  ]
  | inr (inr (le, a)) ↦ elim (padded-cases j) [
    | inl b ↦ absurd (str-ne-zero i _ (omega arith) (sym a ∙ e ∙ b))
    | inr (inl (_, b)) ↦ absurd (str-ne-zero i _ (omega arith) (sym a ∙ e ∙ b))
    | inr (inr (_, b)) ↦ number_of i j (sym a ∙ e ∙ b)
  ]
]

shard_names_differ : (i j : ℕ) → i ≢ j → shard_name i ≢ shard_name j
shard_names_differ i j apart e = apart (
    padded_inj i j
      (append_cancel_left "shard_" _ _ (sym (shard_name-padded i) ∙ e ∙ shard_name-padded j)))

module _ (h : Host) (files : Files h) where
  -- the directory of the `i`-th cache
  abbrev pub shard_directory : String → ℕ → String
  shard_directory directory i = files.join directory (shard_name i)

  module _ (directory : String) (kwargs : Keywords) where
    -- `n` caches, the `i`-th of them opened in the directory of the number `j + i`
    abbrev pub AreOpened : ℕ → ℕ → Fanout h → Type 0
    AreOpened j n cs =
        (i : ℕ)
        → i < n
        → (c : Cache h) × (cache_at i cs ≡ some c)
          × (open_cache h files (some (shard_directory directory (j + i))) min_file_size kwargs
              ≡ ok c)

    AreOpened-add :
        (j n : ℕ) (c : Cache h) (cs : Fanout h)
        → open_cache h files (some (shard_directory directory j)) min_file_size kwargs ≡ ok c
        → AreOpened (j + 1) n cs
        → AreOpened j (suc n) (c ∷ cs)
    unfolding cache_at
    AreOpened-add j n c cs here rest zero lt = (c, refl, rw (add-zero j) here)
    AreOpened-add j n c cs here rest (suc i) lt =
        let (d, there, opened) = rest i (omega arith) in
        let next : j + 1 + i ≡ j + suc i = omega arith in (d, there, rw (next) at opened)

    shards_opened :
        (j n : ℕ) (cs : Fanout h)
        → open_shards h files directory kwargs j n ≡ ok cs
        → (length cs ≡ n) × AreOpened j n cs
    unfolding open_shards
    shards_opened j zero cs e =
        let none_ : [] ≡ cs = ground (arith, e) in
        (rw (← none_) refl, λ i lt. absurd (omega (arith, lt)))
    shards_opened j (suc n) cs e =
        elim (Result-cases
          (open_cache h files (some (shard_directory directory j)) min_file_size kwargs)) [
            | inl (c, here) ↦ elim (Result-cases (open_shards h files directory kwargs (j + 1) n)) [
              | inl (ds, there) ↦
                  let (len, rest) = shards_opened (j + 1) n ds there in
                  let same : c ∷ ds ≡ cs = ground (arith, rw (here, there) at e) in
                  rw (← same) (ap suc len, AreOpened-add j n c ds here rest)
              | inr (x, bad) ↦ absurd (ground (arith, rw (here, bad) at e))
            ]
            | inr (x, bad) ↦ absurd (ground (arith, rw (bad) at e))
          ]

  -- If joining a directory with the names of two shards gives different paths where these names
  -- differ, and a FanoutCache of a number of shards opens, then it has that many caches, the i-th
  -- of them is a Cache opened with the same keywords in the directory joined with the name of the
  -- number i, and the directories of any two numbers are different.
  pub open_fanout_lem :
      (directory : Option String) (kwargs : Keywords) (shards : ℕ) (cs : Fanout h)
      → ((place : String) (i j : ℕ)
          → shard_name i ≢ shard_name j
          → shard_directory place i ≢ shard_directory place j)
      → open_fanout h files directory shards kwargs ≡ ok cs
      → (length cs ≡ shards)
        × AreOpened (place_of h files directory "cache") kwargs 0 shards cs
        × ((i j : ℕ)
            → i ≢ j
            → shard_directory (place_of h files directory "cache") i
              ≢ shard_directory (place_of h files directory "cache") j)
  unfolding open_fanout
  open_fanout_lem directory kwargs shards cs joins e =
      let place = place_of h files directory "cache" in
      let (len, opened) = shards_opened place kwargs 0 shards cs e in
      (len, opened, λ i j apart. joins place i j (shard_names_differ i j apart))
