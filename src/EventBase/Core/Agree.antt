-- ===== src/EventBase/Core/Agree.antt =====
-- Which operations leave the queues of callbacks as they are, and which the queues of timeouts.
use libevent.Common.{ℕ, ◌≡◌, ◌<◌, false, ◌∙◌}
use mathlib.Core.Path.{fun_ext}
use libevent.EventBase.State.{EventBase, flags_of, times, is_common_timeout}
use libevent.EventBase.Queues.Invariant.{IsQueued}
use libevent.EventBase.Timeouts.Invariant.{IsTimed, same_times-IsTimed}

-- What IsQueued is about.
pub record QueuesAgree (b r : EventBase) : Type 0 where
  pub activequeues : (q : ℕ) → b.activequeues q ≡ r.activequeues q
  pub later : b.active_later_queue ≡ r.active_later_queue
  pub nactivequeues : b.nactivequeues ≡ r.nactivequeues
  pub counted : b.event_count_active ≡ r.event_count_active
  pub active : (e : ℕ) → (flags_of b e).active ≡ (flags_of r e).active
  pub active_later : (e : ℕ) → (flags_of b e).active_later ≡ (flags_of r e).active_later
  pub pris : (e : ℕ) → (b.events e).ev_pri ≡ (r.events e).ev_pri
  pub fine : r.aborted ≡ false

pub IsQueued-agree : {b r : EventBase} → QueuesAgree b r → IsQueued b → IsQueued r
IsQueued-agree {b} {r} h v = record {
  queued = λ e q. rw (← h.activequeues q, ← h.active e, ← h.pris e) (v.queued e q);
  later = λ e. rw (← h.later, ← h.active_later e) (v.later e);
  exclusive = λ e. rw (← h.active e, ← h.active_later e) (v.exclusive e);
  pris = λ e. rw (← h.pris e, ← h.nactivequeues) (v.pris e);
  counted = rw (← h.counted, ← fun_ext h.activequeues, ← h.nactivequeues, ← h.later) v.counted;
  fine = h.fine;
}

-- What IsTimed is about.
pub record TimeoutsAgree (b r : EventBase) : Type 0 where
  pub timeheap : b.timeheap ≡ r.timeheap
  pub lists : (i : ℕ) → b.common_timeout_queues i ≡ r.common_timeout_queues i
  pub cache : b.tv_cache ≡ r.tv_cache
  pub clock : ((n : ℕ) → (b.clock n).tv_usec < 1000000) → (n : ℕ) → (r.clock n).tv_usec < 1000000
  pub number : b.n_common_timeouts ≡ r.n_common_timeouts
  pub timeout : (e : ℕ) → (flags_of b e).timeout ≡ (flags_of r e).timeout
  pub times : (e : ℕ) → times b e ≡ times r e
  pub fine : r.aborted ≡ false

pub IsTimed-agree : {b r : EventBase} → TimeoutsAgree b r → IsTimed b → IsTimed r
unfolding is_common_timeout
IsTimed-agree {b} {r} h v =
    same_times-IsTimed v h.times (rw (← h.timeheap) v.heap)
      (λ x. rw (← h.timeheap, ← h.timeout x, ← h.times x, ← h.number) (v.in_heap x))
      (λ x i. rw (← h.lists i, ← h.timeout x, ← h.times x, ← h.number) (v.in_common x i))
      (λ i. rw (← h.lists i) (v.ordered i))
      (λ i.
        rw (← h.lists i, ← h.times (b.common_timeout_queues i).timeout_event, ← h.number)
          (v.plain i))
      (record { cached = λ tv k. v.clock.cached tv (h.cache ∙ k); read = h.clock v.clock.read })
      h.fine
