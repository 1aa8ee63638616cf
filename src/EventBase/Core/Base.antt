-- ===== src/EventBase/Core/Base.antt =====
-- What holds of an event base between its operations: the queues of callbacks, the queues of
-- timeouts and the evmap against the flags of the events.
use libevent.Common.{
  ℕ, ◌<◌, ◌^◌, ◌∙◌, ◌≡◌, ◌≢◌, ◌&&◌, Bool, true, false, not, ◌||◌, arith, if◌then◌else◌, ◌==◌, count,
  Option, none, some,
}
use mathlib.Core.Path.{subst, fun_ext}
use libevent.Flags.{What, is_io}
use libevent.Evmap.{Evmap, io_waiting, signal_waiting}
use libevent.Evmap.Counts.{IsEvmap}
use libevent.EventBase.State.{EventBase, flags_of}
use libevent.EventBase.Queues.{
  insert_active, remove_active, insert_active_later, remove_active_later,
}
use libevent.EventBase.Queues.Invariant.{IsQueued}
use libevent.EventBase.Timeouts.{remove_timeout}
use libevent.EventBase.Timeouts.Invariant.{IsTimed}
use libevent.EventBase.Core.Defs.{wants, abort_loop}

abbrev pub fd_is : Option ℕ → ℕ → Bool
fd_is none fd = false
fd_is (some g) fd = g == fd

-- Whether the event is inserted, and waits for a descriptor, or for a signal.
abbrev pub in_io : EventBase → ℕ → ℕ → Bool
in_io b e fd = (flags_of b e).inserted && is_io (wants b e) && fd_is (b.events e).ev_fd fd

abbrev pub in_signal : EventBase → ℕ → ℕ → Bool
in_signal b e sig =
    (flags_of b e).inserted && not (is_io (wants b e)) && fd_is (b.events e).ev_fd sig

-- The counts of the evmap are right, and an inserted event stands in it once, where its descriptor or
-- its signal says, and nowhere else. An event that waits for a signal has one. Descriptors and signals
-- are below 2^27, for which no int overflows in evmap_make_space.
pub record IsMapped (b : EventBase) : Type 0 where
  pub evmap : IsEvmap (wants b) b.evmap
  pub io : (e fd : ℕ) → count e (io_waiting b.evmap fd) ≡ (if in_io b e fd then 1 else 0)
  pub signal :
      (e sig : ℕ) → count e (signal_waiting b.evmap sig) ≡ (if in_signal b e sig then 1 else 0)
  pub has_signal :
      (e : ℕ)
      → (((flags_of b e).inserted || (wants b e).signal) && not (is_io (wants b e))) ≡ true
      → (b.events e).ev_fd ≢ none
  pub in_range : (e fd : ℕ) → (b.events e).ev_fd ≡ some fd → fd < 2 ^ 27

pub record IsBase (b : EventBase) : Type 0 where
  pub queued : IsQueued b
  pub timed : IsTimed b
  pub mapped : IsMapped b

pub record MapAgree (b r : EventBase) : Type 0 where
  pub evmap : b.evmap ≡ r.evmap
  pub wants : (e : ℕ) → wants b e ≡ wants r e
  pub fd : (e : ℕ) → (b.events e).ev_fd ≡ (r.events e).ev_fd
  pub inserted : (e : ℕ) → (flags_of b e).inserted ≡ (flags_of r e).inserted

pub IsEvmap-agree : (u w : ℕ → What) (m : Evmap) → ((e : ℕ) → u e ≡ w e) → IsEvmap u m → IsEvmap w m
IsEvmap-agree u w m h v = subst (λ (t : ℕ → What). IsEvmap t m) (fun_ext h) v

pub IsMapped-agree : {b r : EventBase} → MapAgree b r → IsMapped b → IsMapped r
IsMapped-agree {b} {r} h v = record {
  evmap = IsEvmap-agree (wants b) (wants r) r.evmap h.wants (rw (← h.evmap) v.evmap);
  io = λ e g. rw (← h.evmap, ← h.wants e, ← h.fd e, ← h.inserted e) (v.io e g);
  signal = λ e g. rw (← h.evmap, ← h.wants e, ← h.fd e, ← h.inserted e) (v.signal e g);
  has_signal = λ e. rw (← h.wants e, ← h.fd e, ← h.inserted e) (v.has_signal e);
  in_range = λ e fd at. v.in_range e fd (h.fd e ∙ at);
}

module _ (b : EventBase) (e : ℕ) where
  pub remove_timeout-MapAgree : (flags_of b e).timeout ≡ true → MapAgree b (remove_timeout b e)
  unfolding remove_timeout
  remove_timeout-MapAgree on = record {
    evmap = ground (arith, on);
    wants = λ x. ground (arith, on);
    fd = λ x. ground (arith, on);
    inserted = λ x. ground (arith, on);
  }

  pub insert_active-MapAgree : MapAgree b (insert_active b e)
  unfolding insert_active
  insert_active-MapAgree = record {
    evmap = ground arith;
    wants = λ x. ground arith;
    fd = λ x. ground arith;
    inserted = λ x. ground arith;
  }

  pub remove_active-MapAgree : MapAgree b (remove_active b e)
  unfolding remove_active
  remove_active-MapAgree = record {
    evmap = ground arith;
    wants = λ x. ground arith;
    fd = λ x. ground arith;
    inserted = λ x. ground arith;
  }

  pub insert_active_later-MapAgree : MapAgree b (insert_active_later b e)
  unfolding insert_active_later
  insert_active_later-MapAgree = record {
    evmap = ground arith;
    wants = λ x. ground arith;
    fd = λ x. ground arith;
    inserted = λ x. ground arith;
  }

  pub remove_active_later-MapAgree : MapAgree b (remove_active_later b e)
  unfolding remove_active_later
  remove_active_later-MapAgree = record {
    evmap = ground arith;
    wants = λ x. ground arith;
    fd = λ x. ground arith;
    inserted = λ x. ground arith;
  }

  pub abort_loop-MapAgree : MapAgree b (abort_loop b e)
  unfolding abort_loop
  abort_loop-MapAgree = record {
    evmap = ground arith;
    wants = λ x. ground arith;
    fd = λ x. ground arith;
    inserted = λ x. ground arith;
  }
