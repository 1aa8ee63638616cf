-- ===== src/TokenBucket/Defs.antt =====
-- struct ev_token_bucket, struct ev_token_bucket_cfg (ratelim-internal.h) and what
-- bufferevent_ratelim.c does with them. Types have the widths of a 64-bit system: a limit is an
-- ev_ssize_t, kept as its two's complement in 64 bits, and a tick an ev_uint32_t.
use libevent.Common.{
  ℕ, ◌+◌, ◌-◌, ◌*◌, ◌/◌, ◌%◌, ◌^◌, ◌&&◌, ◌||◌, Bool, true, false, Option, none, some, ◌==◌, ltb,
  if◌then◌else◌,
}
use libevent.Timeval.{Timeval}

pub record TokenBucket : Type 0 where
  pub read_limit : ℕ
  pub write_limit : ℕ
  pub last_updated : ℕ

pub record TokenBucketCfg : Type 0 where
  pub read_rate : ℕ
  pub read_maximum : ℕ
  pub write_rate : ℕ
  pub write_maximum : ℕ
  pub tick_timeout : Timeval
  pub msec_per_tick : ℕ

-- (ev_int64_t) limit > (ev_int64_t) maximum, for a maximum of EV_RATE_LIMIT_MAX at most.
abbrev pub exceeds : ℕ → ℕ → Bool
exceeds limit maximum = ltb limit (2 ^ 63) && ltb maximum limit

-- ev_token_bucket_init_
unfoldable pub ev_token_bucket_init : TokenBucket → TokenBucketCfg → ℕ → Bool → TokenBucket
ev_token_bucket_init bucket cfg current_tick reinitialize =
    if reinitialize
    then record bucket {
      read_limit =
          if exceeds bucket.read_limit cfg.read_maximum
          then cfg.read_maximum
          else bucket.read_limit;
      write_limit =
          if exceeds bucket.write_limit cfg.write_maximum
          then cfg.write_maximum
          else bucket.write_limit;
    }
    else record {
      read_limit = cfg.read_rate;
      write_limit = cfg.write_rate;
      last_updated = current_tick;
    }

-- maximum - limit, as a size_t.
abbrev pub headroom : ℕ → ℕ → ℕ
headroom maximum limit = (maximum + 2 ^ 64 - limit) % 2 ^ 64

-- current_tick - last_updated, as an unsigned.
abbrev pub ticks_since : ℕ → ℕ → ℕ
ticks_since current_tick last_updated = (current_tick + 2 ^ 32 - last_updated) % 2 ^ 32

-- The new limit of one direction; sum and product are those of size_t.
unfoldable pub refilled : ℕ → ℕ → ℕ → ℕ → ℕ
refilled maximum rate n_ticks limit =
    if ltb (headroom maximum limit / n_ticks) rate
    then maximum
    else (limit + n_ticks * rate % 2 ^ 64) % 2 ^ 64

-- ev_token_bucket_update_, with the return value.
unfoldable pub ev_token_bucket_update : TokenBucket → TokenBucketCfg → ℕ → TokenBucket × Bool
ev_token_bucket_update bucket cfg current_tick =
    let n_ticks = ticks_since current_tick bucket.last_updated in
    if n_ticks == 0 || ltb (2 ^ 31 - 1) n_ticks then (bucket, false) else (
      record {
        read_limit = refilled cfg.read_maximum cfg.read_rate n_ticks bucket.read_limit;
        write_limit = refilled cfg.write_maximum cfg.write_rate n_ticks bucket.write_limit;
        last_updated = current_tick;
      },
      true,
    )

-- ev_token_bucket_get_tick_
unfoldable pub ev_token_bucket_get_tick : Timeval → TokenBucketCfg → ℕ
ev_token_bucket_get_tick tv cfg =
    (tv.tv_sec * 1000 + tv.tv_usec / 1000) % 2 ^ 64 / cfg.msec_per_tick % 2 ^ 32

-- The length of a tick: a second where the caller gives none.
abbrev pub tick_of : Option Timeval → Timeval
tick_of none = record { tv_sec = 1; tv_usec = 0 }
tick_of (some g) = g

-- ev_token_bucket_cfg_new, where `calloc_ok` says whether memory is to be had.
unfoldable pub ev_token_bucket_cfg_new :
    Bool → ℕ → ℕ → ℕ → ℕ → Option Timeval → Option TokenBucketCfg
ev_token_bucket_cfg_new calloc_ok read_rate read_burst write_rate write_burst tick_len =
    let tick = tick_of tick_len in
    if ltb read_burst read_rate || ltb write_burst write_rate || ltb read_rate 1 || ltb write_rate 1
    then none
    else if ltb (2 ^ 63 - 1) read_rate
        || ltb (2 ^ 63 - 1) write_rate
        || ltb (2 ^ 63 - 1) read_burst
        || ltb (2 ^ 63 - 1) write_burst
    then none
    else if calloc_ok
    then some (record {
      read_rate = read_rate;
      write_rate = write_rate;
      read_maximum = read_burst;
      write_maximum = write_burst;
      tick_timeout = tick;
      msec_per_tick = (tick.tv_sec * 1000 + tick.tv_usec % 2 ^ 20 / 1000) % 2 ^ 32;
    })
    else none
