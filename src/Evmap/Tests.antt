-- ===== src/Evmap/Tests.antt =====
-- The theorems on the map at concrete ones.
use libevent.Common.{
  ℕ, ◌≡◌, true, false, refl, some, none, [], ◌∷◌, arith, if◌then◌else◌, ◌==◌, Bool-cases, inl, inr,
}
use mathlib.Core.Path.{subst}
use libevent.Flags.{What, no_events}
use libevent.Evmap.Defs.{
  Evmap, EvmapIo, Env, Call, evmap_io_add, evmap_io_del, evmap_signal_add, evmap_signal_del,
  io_waiting, signal_waiting,
}
use libevent.Evmap.Counts.{IsEntry, IsEvmap, occurs}
use libevent.Evmap.Frame.{Added}
use libevent.Evmap.Io.{evmap_io_add-Added, Deleted, evmap_io_del-Deleted}
use libevent.Evmap.Backend.{watched, IsWatched, evmap_io_add-IsWatched, evmap_io_del-IsWatched}
use libevent.Evmap.Signal.{SignalAdded, evmap_signal_add-SignalAdded}
use libevent.Evmap.SignalDel.{SignalDeleted, evmap_signal_del-SignalDeleted}

-- Memory is to be had, and the backend takes everything.
abbrev kind : Env
kind = record {
  realloc_ok = λ n. true;
  calloc_ok = λ n. true;
  accepts = λ calls c. true;
  debug_mode = true;
}

-- Every event waits to read.
abbrev readers : ℕ → What
readers e = record no_events { read = true }

abbrev entry : EvmapIo
entry = record { events = 7 ∷ []; nread = 1; nwrite = 0; nclose = 0 }

entry-IsEntry : IsEntry readers entry
entry-IsEntry = record {
  reads = refl;
  writes = refl;
  closes = refl;
  read_bound = omega arith;
  write_bound = omega arith;
  close_bound = omega arith;
}

-- Event 7 waits on descriptor 3, and event 8 for signal 2.
abbrev busy : Evmap
busy = record {
  io = λ fd. if fd == 3 then some entry else none;
  io_nentries = 32;
  sigmap = λ sig. if sig == 2 then some (8 ∷ []) else none;
  sig_nentries = 32;
  calls =
      (
        Call.add 3 (record { read = false; write = false; closed = false })
            (record { read = true; write = false; closed = false }) false,
        true,
      )
      ∷ [];
}

busy-IsEvmap : IsEvmap readers busy
busy-IsEvmap = record {
  io_inside = λ fd c h. ground arith;
  entries = λ fd c h. elim (Bool-cases (fd == 3)) [
    | inl here ↦
        let at : entry ≡ c = ground (arith, h, here) in
        subst (λ (x : EvmapIo). IsEntry readers x) at entry-IsEntry
    | inr other ↦ absurd (ground (arith, h, other))
  ];
  sig_inside = λ sig c h. ground arith;
}

waits_io : occurs 7 (io_waiting busy 3) ≡ true
unfolding io_waiting
waits_io = refl

waits_signal : occurs 8 (signal_waiting busy 2) ≡ true
unfolding signal_waiting
waits_signal = refl

evmap_io_add-Added_example :
    Added kind readers busy busy-IsEvmap (some 40) 9 (evmap_io_add kind readers busy (some 40) 9)
evmap_io_add-Added_example =
    evmap_io_add-Added kind readers busy busy-IsEvmap (some 40) 9 (λ g at. ground (arith, at))

evmap_io_del-Deleted_example :
    Deleted kind readers busy busy-IsEvmap 3 7 (evmap_io_del kind readers busy (some 3) 7)
evmap_io_del-Deleted_example = evmap_io_del-Deleted kind readers busy busy-IsEvmap 3 7 waits_io

evmap_signal_add-SignalAdded_example :
    SignalAdded kind readers busy busy-IsEvmap 5 9 (evmap_signal_add kind busy 5 9)
evmap_signal_add-SignalAdded_example =
    evmap_signal_add-SignalAdded kind readers busy busy-IsEvmap 5 9 (omega arith)

evmap_signal_del-SignalDeleted_example :
    SignalDeleted kind readers busy busy-IsEvmap 2 8 (evmap_signal_del kind busy 2 8)
evmap_signal_del-SignalDeleted_example =
    evmap_signal_del-SignalDeleted kind readers busy busy-IsEvmap 2 8 waits_signal

busy-IsWatched : IsWatched readers busy
unfolding watched io_waiting
busy-IsWatched g = ground arith

evmap_io_add-IsWatched_example : IsWatched readers (evmap_io_add kind readers busy (some 3) 9).0
evmap_io_add-IsWatched_example =
    evmap_io_add-IsWatched kind readers busy busy-IsEvmap busy-IsWatched (some 3) 9
      (λ g at. ground (arith, at))

evmap_io_del-IsWatched_example : IsWatched readers (evmap_io_del kind readers busy (some 3) 7).0
evmap_io_del-IsWatched_example =
    evmap_io_del-IsWatched kind readers busy busy-IsEvmap busy-IsWatched 3 7 waits_io
      (λ calls f old gone. refl)
