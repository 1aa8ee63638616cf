-- ===== src/Evmap/Defs.antt =====
-- The map from file descriptors and signals to the events that wait on them (evmap.c), and what it
-- asks of the backend.
-- An event is a number, and `evs` gives its ev_events. The arrays of slots are functions, of which
-- `nentries` are allocated; an empty slot is `none`. A negative descriptor is `none`.
use libevent.Common.{
  ℕ, zero, suc, ◌+◌, ◌-◌, ◌*◌, ◌^◌, Bool, true, false, not, ◌&&◌, ◌||◌, List, [], ◌∷◌, Option, none,
  some, ltb, leb, ◌==◌, if◌then◌else◌, update, remove,
}
use libevent.Flags.{What}

-- Conditions on a descriptor: EV_READ, EV_WRITE and EV_CLOSED.
pub record Interest : Type 0 where
  pub read : Bool
  pub write : Bool
  pub closed : Bool

-- A call of the backend: evsel->add and evsel->del with the descriptor, the old conditions and those
-- to be added or deleted (add with EV_ET or not), and evsigsel->add and evsigsel->del.
pub data Call : Type 0 where
  add : ℕ → Interest → Interest → Bool → Call
  del : ℕ → Interest → Interest → Call
  sig_add : ℕ → Call
  sig_del : ℕ → Call

-- struct evmap_io
pub record EvmapIo : Type 0 where
  pub events : List ℕ
  pub nread : ℕ
  pub nwrite : ℕ
  pub nclose : ℕ

-- The two maps of an event base, and the calls that the backend has answered, latest first, each with
-- whether it succeeded.
pub record Evmap : Type 0 where
  pub io : ℕ → Option EvmapIo
  pub io_nentries : ℕ
  pub sigmap : ℕ → Option (List ℕ)
  pub sig_nentries : ℕ
  pub calls : List (Call × Bool)

-- What the code does not decide: whether memory is to be had (for a map of so many entries, and for
-- the entry of a slot), what the backend answers after the calls so far, and EVENT_DEBUG_MODE_IS_ON.
pub record Env : Type 0 where
  pub realloc_ok : ℕ → Bool
  pub calloc_ok : ℕ → Bool
  pub accepts : List (Call × Bool) → Call → Bool
  pub debug_mode : Bool

-- The return values -1, 0 and 1. `fault` is none of them: a failed EVUTIL_ASSERT, a null pointer or an
-- overflow of an int.
pub data EvmapResult : Type 0 where
  failed same changed fault : EvmapResult

abbrev pub initmap : Evmap
initmap = record {
  io = λ _. none;
  io_nentries = 0;
  sigmap = λ _. none;
  sig_nentries = 0;
  calls = [];
}

-- while (nentries <= slot) nentries <<= 1; as many rounds as `slot` are enough, since each adds one
-- entry at least.
unfoldable pub double_past : ℕ → ℕ → ℕ → ℕ
double_past zero slot nentries = nentries
double_past (suc fuel) slot nentries =
    let more = double_past fuel slot (nentries * 2) in if leb nentries slot then more else nentries

-- Whether an int overflows in evmap_make_space: the new number of entries, or their size where an
-- entry, a pointer, has 8 bytes. If the number overflows, then so does the size.
unfoldable pub make_overflows : ℕ → ℕ → Bool
make_overflows nentries slot =
    leb nentries slot
    && leb (2 ^ 31) (double_past slot slot (if nentries == 0 then 32 else nentries) * 8)

-- evmap_make_space where no int overflows: the new number of entries, or none where the allocation
-- fails.
unfoldable pub make_space : Env → ℕ → ℕ → Option ℕ
make_space env nentries slot =
    if leb nentries slot
    then (let n = double_past slot slot (if nentries == 0 then 32 else nentries) in
        if env.realloc_ok n then some n else none)
    else some nentries

-- evmap_io_init
abbrev pub evmap_io_init : EvmapIo
evmap_io_init = record { events = []; nread = 0; nwrite = 0; nclose = 0 }

abbrev pub positive : ℕ → Bool
positive n = ltb 0 n

-- The conditions on which some event waits.
abbrev pub interest : EvmapIo → Interest
interest c = record {
  read = positive c.nread;
  write = positive c.nwrite;
  closed = positive c.nclose;
}

abbrev pub any_interest : Interest → Bool
any_interest i = i.read || i.write || i.closed

abbrev pub bump : Bool → ℕ → ℕ
bump b n = if b then n + 1 else n

abbrev pub head_et : (ℕ → What) → List ℕ → Option Bool
head_et evs [] = none
head_et evs (x ∷ xs) = some (evs x).et

-- (old_ev->ev_events & EV_ET) != (ev->ev_events & EV_ET), if there is an old event.
abbrev pub mixes : Option Bool → Bool → Bool
mixes none et = false
mixes (some old) et = (old && not et) || (not old && et)

-- A call of the backend.
unfoldable pub ask : Env → Evmap → Call → Evmap × Bool
ask env m c = let ok = env.accepts m.calls c in (record m { calls = (c, ok) ∷ m.calls }, ok)

module _ (evs : ℕ → What) where
  -- The entry with one event more: the counts go up by its conditions.
  unfoldable pub entry_plus : ℕ → EvmapIo → EvmapIo
  entry_plus e ctx = record {
    events = e ∷ ctx.events;
    nread = bump (evs e).read ctx.nread;
    nwrite = bump (evs e).write ctx.nwrite;
    nclose = bump (evs e).closed ctx.nclose;
  }

  -- The conditions whose count goes up to 1.
  unfoldable pub newly_wanted : ℕ → EvmapIo → Interest
  newly_wanted e ctx = record {
    read = (evs e).read && ctx.nread + 1 == 1;
    write = (evs e).write && ctx.nwrite + 1 == 1;
    closed = (evs e).closed && ctx.nclose + 1 == 1;
  }

  -- The entry with one event less: the counts go down by its conditions.
  unfoldable pub entry_minus : ℕ → EvmapIo → EvmapIo
  entry_minus e ctx = record {
    events = remove e ctx.events;
    nread = if (evs e).read then ctx.nread - 1 else ctx.nread;
    nwrite = if (evs e).write then ctx.nwrite - 1 else ctx.nwrite;
    nclose = if (evs e).closed then ctx.nclose - 1 else ctx.nclose;
  }

  -- The conditions whose count goes down to 0.
  unfoldable pub no_longer_wanted : ℕ → EvmapIo → Interest
  no_longer_wanted e ctx = record {
    read = (evs e).read && ctx.nread == 1;
    write = (evs e).write && ctx.nwrite == 1;
    closed = (evs e).closed && ctx.nclose == 1;
  }

  -- Whether a count would go below zero, which fails an assertion.
  unfoldable pub underflows : ℕ → EvmapIo → Bool
  underflows e ctx =
      ((evs e).read && ctx.nread == 0)
      || ((evs e).write && ctx.nwrite == 0)
      || ((evs e).closed && ctx.nclose == 0)

module _ (env : Env) (evs : ℕ → What) where
  -- evmap_io_add_ from the entry of the slot on.
  unfoldable pub io_add_ctx : Evmap → ℕ → ℕ → EvmapIo → Evmap × EvmapResult
  unfolding ask
  io_add_ctx m fd e ctx =
      let next = entry_plus evs e ctx in
      let res = newly_wanted evs e ctx in
      let stored = λ (m' : Evmap). record m' { io = update m'.io fd (some next) } in
      if ltb 0xffff next.nread || ltb 0xffff next.nwrite || ltb 0xffff next.nclose
      then (m, EvmapResult.failed)
      else if env.debug_mode && mixes (head_et evs ctx.events) (evs e).et
      then (m, EvmapResult.failed)
      else if any_interest res
      then (let (m', ok) = ask env m (Call.add fd (interest ctx) res (evs e).et) in
          if ok then (stored m', EvmapResult.changed) else (m', EvmapResult.failed))
      else (stored m, EvmapResult.same)

  -- evmap_io_add_
  unfoldable pub evmap_io_add : Evmap → Option ℕ → ℕ → Evmap × EvmapResult
  unfolding io_add_ctx
  evmap_io_add m none e = (m, EvmapResult.same)
  evmap_io_add m (some fd) e =
      if make_overflows m.io_nentries fd
      then (m, EvmapResult.fault)
      else elim (make_space env m.io_nentries fd) [
        | none ↦ (m, EvmapResult.failed)
        | some n ↦
            let spaced = record m { io_nentries = n } in
            elim (m.io fd) [
              | some ctx ↦ io_add_ctx spaced fd e ctx
              | none ↦
                  let made = record spaced { io = update m.io fd (some evmap_io_init) } in
                  if env.calloc_ok fd
                  then io_add_ctx made fd e evmap_io_init
                  else (spaced, EvmapResult.failed)
            ]
      ]

  -- evmap_io_del_ from the entry of the slot on.
  unfoldable pub io_del_ctx : Evmap → ℕ → ℕ → EvmapIo → Evmap × EvmapResult
  unfolding entry_minus no_longer_wanted underflows ask
  io_del_ctx m fd e ctx =
      let next = entry_minus evs e ctx in
      let res = no_longer_wanted evs e ctx in
      let stored = λ (m' : Evmap). record m' { io = update m'.io fd (some next) } in
      if underflows evs e ctx
      then (m, EvmapResult.fault)
      else if any_interest res
      then (let (m', ok) = ask env m (Call.del fd (interest ctx) res) in
          (stored m', if ok then EvmapResult.changed else EvmapResult.failed))
      else (stored m, EvmapResult.same)

  -- evmap_io_del_
  unfoldable pub evmap_io_del : Evmap → Option ℕ → ℕ → Evmap × EvmapResult
  unfolding io_del_ctx
  evmap_io_del m none e = (m, EvmapResult.same)
  evmap_io_del m (some fd) e =
      if leb m.io_nentries fd
      then (m, EvmapResult.failed)
      else elim (m.io fd) [ none ↦ (m, EvmapResult.fault) | some ctx ↦ io_del_ctx m fd e ctx ]

module _ (env : Env) where
  -- evmap_signal_add_ from the entry of the slot on.
  unfoldable pub signal_add_ctx : Evmap → ℕ → ℕ → List ℕ → Evmap × EvmapResult
  signal_add_ctx m sig e ctx =
      let stored = λ (m' : Evmap). record m' { sigmap = update m'.sigmap sig (some (e ∷ ctx)) } in
      elim ctx [
        | [] ↦
            let (m', ok) = ask env m (Call.sig_add sig) in
            if ok then (stored m', EvmapResult.changed) else (m', EvmapResult.failed)
        | x ∷ rest ↦ (stored m, EvmapResult.changed)
      ]

  -- evmap_signal_add_
  unfoldable pub evmap_signal_add : Evmap → ℕ → ℕ → Evmap × EvmapResult
  evmap_signal_add m sig e =
      if make_overflows m.sig_nentries sig
      then (m, EvmapResult.fault)
      else elim (make_space env m.sig_nentries sig) [
        | none ↦ (m, EvmapResult.failed)
        | some n ↦
            let spaced = record m { sig_nentries = n } in
            elim (m.sigmap sig) [
              | some ctx ↦ signal_add_ctx spaced sig e ctx
              | none ↦
                  let made = record spaced { sigmap = update m.sigmap sig (some []) } in
                  if env.calloc_ok sig
                  then signal_add_ctx made sig e []
                  else (spaced, EvmapResult.failed)
            ]
      ]

  -- evmap_signal_del_
  unfoldable pub evmap_signal_del : Evmap → ℕ → ℕ → Evmap × EvmapResult
  evmap_signal_del m sig e =
      if leb m.sig_nentries sig then (m, EvmapResult.failed) else elim (m.sigmap sig) [
        | none ↦ (m, EvmapResult.fault)
        | some ctx ↦
            let left = remove e ctx in
            let stored = record m { sigmap = update m.sigmap sig (some left) } in
            elim left [
              | x ∷ rest ↦ (stored, EvmapResult.changed)
              | [] ↦
                  let (m', ok) = ask env stored (Call.sig_del sig) in
                  (m', if ok then EvmapResult.changed else EvmapResult.failed)
            ]
      ]

abbrev pub events_of : Option EvmapIo → List ℕ
events_of none = []
events_of (some ctx) = ctx.events

abbrev pub succeeded : EvmapResult → Bool
succeeded EvmapResult.same = true
succeeded EvmapResult.changed = true
succeeded _ = false

-- The events of evmap_io_active_ and evmap_signal_active_: those that event_active_nolock_ is called
-- on, in the order of the list.
unfoldable pub io_waiting : Evmap → ℕ → List ℕ
io_waiting m fd = if leb m.io_nentries fd then [] else events_of (m.io fd)

unfoldable pub signal_waiting : Evmap → ℕ → List ℕ
signal_waiting m sig =
    if leb m.sig_nentries sig then [] else elim (m.sigmap sig) [ none ↦ [] | some ctx ↦ ctx ]
