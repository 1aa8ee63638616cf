-- ===== src/TokenBucket/Update.antt =====
-- ev_token_bucket_update_ against the plain rule that its comment gives.
use libevent.Common.{
  ℕ, ◌+◌, ◌-◌, ◌*◌, ◌/◌, ◌%◌, ◌^◌, ◌≤◌, ◌<◌, ◌≡◌, ◌↔◌, ◌&&◌, ◌||◌, true, false, leb, if◌then◌else◌,
  ltb, ltb→lt, lt→ltb, ◌==◌, arith, Bool-cases, inl, inr, refl,
}
use native.Mathlib.Nat.{div-lt_iff_lt-mul}
use libevent.TokenBucket.Defs.{
  TokenBucket, TokenBucketCfg, headroom, ticks_since, refilled, ev_token_bucket_update,
}

module _ (maximum rate n_ticks limit : ℕ) (some_ticks : 0 < n_ticks) (fits : maximum < 2 ^ 64)
    (limit_fits : limit < 2 ^ 64) where
  room_for : ((headroom maximum limit / n_ticks) < rate) ↔ (headroom maximum limit < rate * n_ticks)
  room_for = div-lt_iff_lt-mul some_ticks

  is_full :
      ltb (headroom maximum limit / n_ticks) rate ≡ true → headroom maximum limit < n_ticks * rate
  is_full h = omega (arith, room_for.0 (ltb→lt (headroom maximum limit / n_ticks) rate h))

  is_part :
      ltb (headroom maximum limit / n_ticks) rate ≡ false → n_ticks * rate ≤ headroom maximum limit
  is_part h = elim (Bool-cases (ltb (headroom maximum limit) (rate * n_ticks))) [
    | inl less ↦
        let small = room_for.1 (ltb→lt (headroom maximum limit) (rate * n_ticks) less) in
        absurd (cc (h, lt→ltb (headroom maximum limit / n_ticks) rate small))
    | inr enough ↦ ground (arith, enough)
  ]

-- An ev_ssize_t plus 2^63, which orders the numbers as the sign does.
abbrev pub shifted : ℕ → ℕ
shifted limit = (limit + 2 ^ 63) % 2 ^ 64

-- One direction after an update, by the plain rule of the comment in signed numbers that do not
-- overflow: the rate for each tick is added, and what is above the maximum is cut.
abbrev pub Refilled : ℕ → ℕ → ℕ → ℕ → ℕ → Type 0
Refilled maximum rate n_ticks before after = shifted after ≡ (
    if leb (shifted before + n_ticks * rate) (shifted maximum)
    then shifted before + n_ticks * rate
    else shifted maximum)

refilled-Refilled :
    (maximum rate n_ticks limit : ℕ)
    → 0 < n_ticks
    → maximum < 2 ^ 63
    → limit < 2 ^ 64
    → shifted limit ≤ shifted maximum
    → Refilled maximum rate n_ticks limit (refilled maximum rate n_ticks limit)
unfolding refilled
refilled-Refilled maximum rate n_ticks limit some_ticks fits limit_fits below =
    let wide : maximum < 2 ^ 64 = omega (arith, fits) in
    elim (Bool-cases (ltb (headroom maximum limit / n_ticks) rate)) [
      | inl full ↦
          let over = is_full maximum rate n_ticks limit some_ticks wide limit_fits full in
          rw full (ground (arith, over, below, fits, limit_fits))
      | inr part ↦
          let under = is_part maximum rate n_ticks limit some_ticks wide limit_fits part in
          rw part (ground (arith, under, below, fits, limit_fits))
    ]

-- ev_token_bucket_update_ of a bucket whose limits, as signed numbers, are at most the maxima: with no
-- tick gone, or more than INT_MAX, it returns 0 and changes nothing; otherwise it returns 1 and notes
-- the tick, and each limit is the old one plus the rate for each tick, or the maximum where that is
-- less, without overflow.
pub ev_token_bucket_update_lem :
    (bucket : TokenBucket) (cfg : TokenBucketCfg) (tick : ℕ)
    → bucket.read_limit < 2 ^ 64
    → bucket.write_limit < 2 ^ 64
    → cfg.read_maximum < 2 ^ 63
    → cfg.write_maximum < 2 ^ 63
    → shifted bucket.read_limit ≤ shifted cfg.read_maximum
    → shifted bucket.write_limit ≤ shifted cfg.write_maximum
    → let n = ticks_since tick bucket.last_updated in
      let (after, updated) = ev_token_bucket_update bucket cfg tick in
      (updated ≡ (ltb 0 n && ltb n (2 ^ 31)))
      × (updated ≡ false → after ≡ bucket)
      × (updated ≡ true
          → (after.last_updated ≡ tick)
            × Refilled cfg.read_maximum cfg.read_rate n bucket.read_limit after.read_limit
            × Refilled cfg.write_maximum cfg.write_rate n bucket.write_limit after.write_limit)
unfolding ev_token_bucket_update
ev_token_bucket_update_lem bucket cfg tick reads writes read_fits write_fits read_below
      write_below =
    let n = ticks_since tick bucket.last_updated in
    elim (Bool-cases (n == 0 || ltb (2 ^ 31 - 1) n)) [
      | inl idle ↦ rw idle (ground (arith, idle), λ _. refl, λ bad. cc)
      | inr ticks ↦ rw ticks (
        ground (arith, ticks),
        λ bad. cc,
        λ _. (
          refl,
          refilled-Refilled cfg.read_maximum cfg.read_rate n bucket.read_limit
              (ground (arith, ticks)) read_fits reads read_below,
          refilled-Refilled cfg.write_maximum cfg.write_rate n bucket.write_limit
              (ground (arith, ticks)) write_fits writes write_below,
        ),
      )
    ]
