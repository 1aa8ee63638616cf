-- ===== src/TokenBucket/Tests.antt =====
-- The theorem on token buckets at a concrete one.
use libevent.Common.{◌≡◌, ◌-◌, ◌&&◌, ◌^◌, true, false, ltb, arith}
use libevent.TokenBucket.Defs.{TokenBucket, TokenBucketCfg, ticks_since, ev_token_bucket_update}
use libevent.TokenBucket.Update.{Refilled, ev_token_bucket_update_lem}

-- Ten bytes owed in reading, and the tick number about to wrap around.
abbrev owing : TokenBucket
owing = record { read_limit = 2 ^ 64 - 10; write_limit = 90; last_updated = 2 ^ 32 - 1 }

abbrev slow : TokenBucketCfg
slow = record {
  read_rate = 30;
  read_maximum = 100;
  write_rate = 20;
  write_maximum = 100;
  tick_timeout = record { tv_sec = 1; tv_usec = 0 };
  msec_per_tick = 1000;
}

ev_token_bucket_update_lem_example :
    let n = ticks_since 1 owing.last_updated in
    let (after, updated) = ev_token_bucket_update owing slow 1 in
    (updated ≡ (ltb 0 n && ltb n (2 ^ 31)))
    × (updated ≡ false → after ≡ owing)
    × (updated ≡ true
        → (after.last_updated ≡ 1)
          × Refilled 100 30 n owing.read_limit after.read_limit
          × Refilled 100 20 n owing.write_limit after.write_limit)
ev_token_bucket_update_lem_example =
    ev_token_bucket_update_lem owing slow 1 (omega arith) (omega arith) (omega arith) (omega arith)
      (omega arith) (omega arith)
