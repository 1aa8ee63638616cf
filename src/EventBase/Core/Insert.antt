-- ===== src/EventBase/Core/Insert.antt =====
-- The part of event_add_nolock_ that enters an event into the evmap keeps an event base right.
use libevent.Common.{
  ℕ, ◌≡◌, ◌≢◌, ◌+◌, ◌&&◌, Bool, true, false, not, ◌||◌, arith, sym, ◌∙◌, ap, if◌then◌else◌, ◌==◌,
  count, Option, none, some, List, Bool-cases, Option-cases, inl, inr,
}
use native.Mathlib.Decide.{ℕ_discrete}
use libevent.Flags.{is_io}
use libevent.Evmap.{
  Env, Evmap, EvmapResult, io_waiting, signal_waiting, evmap_io_add, evmap_signal_add, succeeded,
}
use libevent.Evmap.Counts.{IsEvmap}
use libevent.Evmap.Frame.{joined}
use libevent.Evmap.Io.{evmap_io_add-Added}
use libevent.Evmap.Signal.{evmap_signal_add-SignalAdded}
use libevent.Evmap.Same.{same_io, same_signals}
use libevent.EventBase.State.{EventBase, flags_of}
use libevent.EventBase.Core.Defs.{wants, insert_inserted, from_evmap, evmap_add}
use libevent.EventBase.Core.AddDefs.{add_inserted}
use libevent.EventBase.Core.Agree.{IsQueued-agree, IsTimed-agree}
use libevent.EventBase.Core.Keeps.{
  insert_inserted-QueuesAgree, insert_inserted-TimeoutsAgree, from_evmap-QueuesAgree,
  from_evmap-TimeoutsAgree,
}
use libevent.EventBase.Core.Base.{IsMapped, IsBase, IsEvmap-agree, fd_is, in_io, in_signal}

joined-count :
    (done : Bool) (fd : Option ℕ) (e g x : ℕ) (xs : List ℕ)
    → count x (joined done fd e g xs) ≡ count x xs + (if done && fd_is fd g && e == x then 1 else 0)
joined-count done none e g x xs = ground arith
joined-count done (some fd) e g x xs = ground arith

module _ (env : Env) (b : EventBase) (v : IsBase b) (e : ℕ)
    (off : (flags_of b e).inserted ≡ false) where
  -- What is done with the map that evmap_io_add_ or evmap_signal_add_ returns.
  abbrev entered : Evmap × EvmapResult → EventBase
  entered out = let (b', ok) = from_evmap b out in if ok then insert_inserted b' e else b'

  module _ (out : Evmap × EvmapResult) (fine : out.1 ≢ EvmapResult.fault)
      (valid : IsEvmap (wants b) out.0)
      (has_fd : is_io (wants b e) ≡ false → (b.events e).ev_fd ≢ none)
      (io : (x fd : ℕ)
        → count x (io_waiting out.0 fd) ≡ (
            if in_io b x fd
              || (succeeded out.1 && e == x && is_io (wants b e) && fd_is (b.events e).ev_fd fd)
            then 1
            else 0))
      (signal : (x sig : ℕ)
        → count x (signal_waiting out.0 sig) ≡ (
            if in_signal b x sig
              || (succeeded out.1
                  && e == x
                  && not (is_io (wants b e))
                  && fd_is (b.events e).ev_fd sig)
            then 1
            else 0)) where
    abbrev mapped_base : EventBase
    mapped_base = (from_evmap b out).0

    still_off : (flags_of mapped_base e).inserted ≡ false
    unfolding from_evmap
    still_off = ground (arith, off, fine)

    entered-same :
        (x : ℕ)
        → (wants (entered out) x ≡ wants b x)
          × (((entered out).events x).ev_fd ≡ (b.events x).ev_fd)
          × ((flags_of (entered out) x).inserted
              ≡ ((flags_of b x).inserted || (succeeded out.1 && e == x)))
    unfolding from_evmap insert_inserted
    entered-same x =
        (ground (arith, off, fine), ground (arith, off, fine), ground (arith, off, fine))

    entered-evmap : (entered out).evmap ≡ out.0
    unfolding from_evmap insert_inserted
    entered-evmap = ground (arith, off, fine)

    entered-IsMapped : IsMapped (entered out)
    entered-IsMapped = record {
      evmap = rw entered-evmap (
          IsEvmap-agree (wants b) (wants (entered out)) out.0 (λ x. sym ((entered-same x).0))
            valid);
      io = λ x fd.
          let (w, f, i) = entered-same x in
          rw (entered-evmap, w, f, i)
            (io x fd ∙ elim (ℕ_discrete e x) [
              | yes at ↦ rw (← at) (ground (arith, off))
              | no ne ↦ ground arith
            ]);
      signal = λ x sig.
          let (w, f, i) = entered-same x in
          rw (entered-evmap, w, f, i)
            (signal x sig ∙ elim (ℕ_discrete e x) [
              | yes at ↦ rw (← at) (ground (arith, off))
              | no ne ↦ ground arith
            ]);
      has_signal = λ x h.
          let (w, f, i) = entered-same x in
          rw f (elim (ℕ_discrete e x) [
            | yes at ↦ rw (← at) (has_fd (ground (arith, w, at, h)))
            | no ne ↦ v.mapped.has_signal x (ground (arith, w, i, h))
          ]);
      in_range = λ x fd at. let (w, f, i) = entered-same x in v.mapped.in_range x fd (sym f ∙ at);
    }

    entered-IsBase : IsBase (entered out)
    entered-IsBase =
        let queued = IsQueued-agree (from_evmap-QueuesAgree b v.queued.fine out fine) v.queued in
        let timed = IsTimed-agree (from_evmap-TimeoutsAgree b v.queued.fine out fine) v.timed in
        elim (Bool-cases (from_evmap b out).1) [
          | inl ok ↦ record {
            queued = rw ok (
                IsQueued-agree (insert_inserted-QueuesAgree mapped_base queued.fine e still_off)
                  queued);
            timed = rw ok (
                IsTimed-agree (insert_inserted-TimeoutsAgree mapped_base queued.fine e still_off)
                  timed);
            mapped = entered-IsMapped;
          }
          | inr refused ↦ record {
            queued = rw refused queued;
            timed = rw refused timed;
            mapped = entered-IsMapped;
          }
        ]

  add_io :
      is_io (wants b e) ≡ true
      → IsBase (entered (evmap_io_add env (wants b) b.evmap (b.events e).ev_fd e))
  add_io is =
      let fd = (b.events e).ev_fd in
      let out = evmap_io_add env (wants b) b.evmap fd e in
      let d = evmap_io_add-Added env (wants b) b.evmap v.mapped.evmap fd e (v.mapped.in_range e) in
      entered-IsBase out d.no_fault d.valid (λ not_io. absurd (ground (arith, is, not_io)))
        (λ x g.
          ap (count x) (d.waiting g)
          ∙ joined-count (succeeded out.1) fd e g x (io_waiting b.evmap g)
          ∙ rw (v.mapped.io x g) (elim (ℕ_discrete e x) [
            | yes at ↦ rw (← at) (ground (arith, off, is))
            | no ne ↦ ground arith
          ]))
        (λ x g.
          ap (count x) (same_signals (wants b) b.evmap out.0 v.mapped.evmap d.valid d.signals g)
          ∙ v.mapped.signal x g
          ∙ ground (arith, is))

  add_signal :
      (sig : ℕ)
      → is_io (wants b e) ≡ false
      → (b.events e).ev_fd ≡ some sig
      → IsBase (entered (evmap_signal_add env b.evmap sig e))
  add_signal sig is here =
      let out = evmap_signal_add env b.evmap sig e in
      let d =
        evmap_signal_add-SignalAdded env (wants b) b.evmap v.mapped.evmap sig e
          (v.mapped.in_range e sig here) in
      entered-IsBase out d.no_fault d.valid (λ _. ground (arith, here))
        (λ x g.
          ap (count x) (same_io (wants b) b.evmap out.0 v.mapped.evmap d.valid d.io g)
          ∙ v.mapped.io x g
          ∙ ground (arith, is))
        (λ x g.
          ap (count x) (d.waiting g)
          ∙ joined-count (succeeded out.1) (some sig) e g x (signal_waiting b.evmap g)
          ∙ rw (v.mapped.signal x g, here)
              (elim (ℕ_discrete e x) [
                | yes at ↦ rw (← at, here) (ground (arith, off, is))
                | no ne ↦ ground arith
              ]))

  evmap_add-entered :
      (is_io (wants b e) || (wants b e).signal) ≡ true
      → IsBase (let (b', ok) = evmap_add env b e in if ok then insert_inserted b' e else b')
  unfolding evmap_add
  evmap_add-entered some_kind = elim (Bool-cases (is_io (wants b e))) [
    | inl is ↦ rw is (add_io is)
    | inr is ↦ elim (Option-cases (b.events e).ev_fd) [
      | inl here ↦ absurd (v.mapped.has_signal e (ground (arith, is, some_kind)) here)
      | inr (sig, here) ↦ rw (is, here) (add_signal sig is here)
    ]
  ]

module _ (env : Env) (b : EventBase) (v : IsBase b) (e : ℕ) where
  pub add_inserted-IsBase : IsBase (add_inserted env b e).0
  unfolding add_inserted
  add_inserted-IsBase =
      elim (Bool-cases (
        (is_io (wants b e) || (wants b e).signal)
        && not ((flags_of b e).inserted || (flags_of b e).active || (flags_of b e).active_later))) [
          | inl enters ↦
              let off : (flags_of b e).inserted ≡ false = ground (arith, enters) in
              let kind : (is_io (wants b e) || (wants b e).signal) ≡ true =
                ground (arith, enters) in
              let entered = evmap_add-entered env b v e off kind in
              rw enters (elim (Bool-cases (evmap_add env b e).1) [
                | inl ok ↦ rw ok (rw ok at entered)
                | inr refused ↦ rw refused (rw refused at entered)
              ])
          | inr stays ↦ rw stays v
        ]
