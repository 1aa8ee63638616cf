-- ===== src/EventBase/Core/Delete.antt =====
-- event_del_nolock_ keeps an event base right.
use libevent.Common.{
  ℕ, ◌≡◌, ◌≢◌, ◌&&◌, Bool, true, false, not, arith, sym, ◌∙◌, ap, if◌then◌else◌, ◌==◌, count, none,
  some, List, [], ◌∷◌, Bool-cases, Option-cases, inl, inr, count-remove,
}
use mathlib.Core.Path.{subst}
use libevent.Flags.{is_io}
use libevent.Evmap.{
  Env, Evmap, EvmapResult, io_waiting, signal_waiting, evmap_io_del, evmap_signal_del,
}
use libevent.Evmap.Counts.{occurs, IsEvmap}
use libevent.Evmap.Io.{evmap_io_del-Deleted}
use libevent.Evmap.SignalDel.{evmap_signal_del-SignalDeleted}
use libevent.Evmap.Same.{same_io, same_signals}
use libevent.EventBase.State.{EventBase, flags_of}
use libevent.EventBase.Core.Defs.{
  wants, abort_loop, drop_timeout, drop_active, drop_inserted, remove_inserted, from_evmap,
  evmap_del, event_del,
}
use libevent.EventBase.Core.Agree.{IsQueued-agree, IsTimed-agree}
use libevent.EventBase.Core.Keeps.{
  remove_inserted-QueuesAgree, remove_inserted-TimeoutsAgree, from_evmap-QueuesAgree,
  from_evmap-TimeoutsAgree,
}
use libevent.EventBase.Core.Base.{IsMapped, IsBase, IsEvmap-agree, in_io, in_signal}
use libevent.EventBase.Core.Drop.{abort_loop-IsBase, drop_timeout-IsBase, drop_active-IsBase}

occurs-count : (e : ℕ) (xs : List ℕ) → count e xs ≡ 1 → occurs e xs ≡ true
occurs-count e [] h = absurd (omega arith)
occurs-count e (x ∷ xs) h = ground (arith, occurs-count e xs)

module _ (env : Env) (b : EventBase) (v : IsBase b) (e : ℕ)
    (on : (flags_of b e).inserted ≡ true) where
  abbrev removed : EventBase
  removed = remove_inserted b e

  -- The map without the event.
  module _ (out : Evmap × EvmapResult) (fine : out.1 ≢ EvmapResult.fault)
      (valid : IsEvmap (wants b) out.0)
      (io : (x fd : ℕ)
        → count x (io_waiting out.0 fd) ≡ (if in_io b x fd && not (e == x) then 1 else 0))
      (signal : (x sig : ℕ)
        → count x (signal_waiting out.0 sig)
          ≡ (if in_signal b x sig && not (e == x) then 1 else 0)) where
    abbrev deleted : EventBase
    deleted = (from_evmap removed out).0

    deleted-same :
        (x : ℕ)
        → (wants deleted x ≡ wants b x)
          × ((deleted.events x).ev_fd ≡ (b.events x).ev_fd)
          × ((flags_of deleted x).inserted ≡ ((flags_of b x).inserted && not (e == x)))
    unfolding from_evmap remove_inserted
    deleted-same x = (ground (arith, on, fine), ground (arith, on, fine), ground (arith, on, fine))

    deleted-evmap : deleted.evmap ≡ out.0
    unfolding from_evmap
    deleted-evmap = ground (arith, fine)

    deleted-IsMapped : IsMapped deleted
    deleted-IsMapped = record {
      evmap =
          rw deleted-evmap
            (IsEvmap-agree (wants b) (wants deleted) out.0 (λ x. sym ((deleted-same x).0)) valid);
      io = λ x fd.
          let (w, f, i) = deleted-same x in rw (deleted-evmap, w, f, i) (io x fd ∙ ground arith);
      signal = λ x sig.
          let (w, f, i) = deleted-same x in
          rw (deleted-evmap, w, f, i) (signal x sig ∙ ground arith);
      has_signal = λ x h.
          let (w, f, i) = deleted-same x in rw f (v.mapped.has_signal x (ground (arith, w, i, h)));
      in_range = λ x fd at. let (w, f, i) = deleted-same x in v.mapped.in_range x fd (sym f ∙ at);
    }

    deleted-IsBase : IsBase deleted
    deleted-IsBase =
        let queued = IsQueued-agree (remove_inserted-QueuesAgree b v.queued.fine e on) v.queued in
        let timed = IsTimed-agree (remove_inserted-TimeoutsAgree b v.queued.fine e on) v.timed in
        record {
          queued = IsQueued-agree (from_evmap-QueuesAgree removed queued.fine out fine) queued;
          timed = IsTimed-agree (from_evmap-TimeoutsAgree removed queued.fine out fine) timed;
          mapped = deleted-IsMapped;
        }

  same_wants : (x : ℕ) → wants b x ≡ wants removed x
  unfolding remove_inserted
  same_wants x = ground (arith, on)

  same_evmap : removed.evmap ≡ b.evmap
  unfolding remove_inserted
  same_evmap = ground (arith, on)

  same_fd : (removed.events e).ev_fd ≡ (b.events e).ev_fd
  unfolding remove_inserted
  same_fd = ground (arith, on)

  valid_removed : IsEvmap (wants removed) b.evmap
  valid_removed = IsEvmap-agree (wants b) (wants removed) b.evmap same_wants v.mapped.evmap

  valid_again : (m : Evmap) → IsEvmap (wants removed) m → IsEvmap (wants b) m
  valid_again m = IsEvmap-agree (wants removed) (wants b) m (λ x. sym (same_wants x))

  delete_io :
      (fd : ℕ)
      → is_io (wants b e) ≡ true
      → (b.events e).ev_fd ≡ some fd
      → IsBase (from_evmap removed (evmap_io_del env (wants removed) b.evmap (some fd) e)).0
  delete_io fd is here =
      let own = v.mapped.io e fd in
      let once : count e (io_waiting b.evmap fd) ≡ 1 = ground (arith, own, on, is, here) in
      let d =
        evmap_io_del-Deleted env (wants removed) b.evmap valid_removed fd e
          (occurs-count e (io_waiting b.evmap fd) once) in
      let out = evmap_io_del env (wants removed) b.evmap (some fd) e in
      deleted-IsBase out d.no_fault (valid_again out.0 d.valid)
        (λ x g.
          ap (count x) (d.waiting g)
          ∙ ground (arith, v.mapped.io x g, on, is, here, count-remove x e (io_waiting b.evmap g)))
        (λ x g.
          ap (count x)
            (same_signals (wants removed) b.evmap out.0 valid_removed d.valid d.signals g)
          ∙ v.mapped.signal x g
          ∙ ground (arith, is))

  delete_signal :
      (sig : ℕ)
      → is_io (wants b e) ≡ false
      → (b.events e).ev_fd ≡ some sig
      → IsBase (from_evmap removed (evmap_signal_del env b.evmap sig e)).0
  delete_signal sig is here =
      let own = v.mapped.signal e sig in
      let once : count e (signal_waiting b.evmap sig) ≡ 1 = ground (arith, own, on, is, here) in
      let d =
        evmap_signal_del-SignalDeleted env (wants removed) b.evmap valid_removed sig e
          (occurs-count e (signal_waiting b.evmap sig) once) in
      let out = evmap_signal_del env b.evmap sig e in
      deleted-IsBase out d.no_fault (valid_again out.0 d.valid)
        (λ x g.
          ap (count x) (same_io (wants removed) b.evmap out.0 valid_removed d.valid d.io g)
          ∙ v.mapped.io x g
          ∙ ground (arith, is))
        (λ x g.
          ap (count x) (d.waiting g)
          ∙ ground (
            arith,
            v.mapped.signal x g,
            on,
            is,
            here,
            count-remove x e (signal_waiting b.evmap g),
          ))

  delete_nowhere :
      is_io (wants b e) ≡ true
      → (b.events e).ev_fd ≡ none
      → IsBase (from_evmap removed (b.evmap, EvmapResult.same)).0
  delete_nowhere is here =
      deleted-IsBase (b.evmap, EvmapResult.same) (λ bad. cc) v.mapped.evmap
        (λ x g. v.mapped.io x g ∙ ground (arith, here))
        (λ x g. v.mapped.signal x g ∙ ground (arith, is))

  at_removed :
      (f : Evmap → Evmap × EvmapResult)
      → IsBase (from_evmap removed (f b.evmap)).0
      → IsBase (from_evmap removed (f removed.evmap)).0
  at_removed f = subst (λ (m : Evmap). IsBase (from_evmap removed (f m)).0) (sym same_evmap)

  evmap_del-IsBase : IsBase (evmap_del env removed e).0
  unfolding evmap_del evmap_io_del
  evmap_del-IsBase = elim (Bool-cases (is_io (wants b e))) [
    | inl is ↦
        let is' : is_io (wants removed e) ≡ true = rw (← same_wants e) is in
        elim (Option-cases (b.events e).ev_fd) [
          | inl here ↦
              rw (is', same_fd, here)
                (at_removed (λ m. (m, EvmapResult.same)) (delete_nowhere is here))
          | inr (fd, here) ↦
              rw (is', same_fd, here)
                (at_removed (λ m. evmap_io_del env (wants removed) m (some fd) e)
                  (delete_io fd is here))
        ]
    | inr is ↦
        let is' : is_io (wants removed e) ≡ false = rw (← same_wants e) is in
        elim (Option-cases (b.events e).ev_fd) [
          | inl here ↦ absurd (v.mapped.has_signal e (ground (arith, on, is)) here)
          | inr (sig, here) ↦
              rw (is', same_fd, here)
                (at_removed (λ m. evmap_signal_del env m sig e) (delete_signal sig is here))
        ]
  ]

module _ (env : Env) (b : EventBase) (v : IsBase b) (e : ℕ) where
  pub drop_inserted-IsBase : IsBase (drop_inserted env b e).0
  unfolding drop_inserted
  drop_inserted-IsBase = elim (Bool-cases (flags_of b e).inserted) [
    | inl on ↦ rw on (evmap_del-IsBase env b v e on)
    | inr off ↦ rw off v
  ]

module _ (env : Env) (b : EventBase) (v : IsBase b) (e : ℕ) where
  -- event_del_nolock_ of any event, whether its flags or the caller let it do anything or not: no
  -- assertion fails, and the queues, the lists of timeouts, the heap and the evmap stay right.
  pub event_del-IsBase :
      (even_if_finalizing : Bool) → IsBase (event_del env b e even_if_finalizing).0
  unfolding event_del
  event_del-IsBase even_if_finalizing =
      elim (Bool-cases ((flags_of b e).finalizing && not even_if_finalizing)) [
        | inl nothing ↦ rw nothing v
        | inr something ↦
            let b1 = abort_loop b e in
            let v1 = abort_loop-IsBase b v e in
            let b2 = drop_timeout b1 e in
            let v2 = drop_timeout-IsBase b1 v1 e in
            rw something
              (drop_inserted-IsBase env (drop_active b2 e) (drop_active-IsBase b2 v2 e) e)
      ]
