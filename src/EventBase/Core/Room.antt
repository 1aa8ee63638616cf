-- ===== src/EventBase/Core/Room.antt =====
-- What the steps of event_add_nolock_ before the insertion of the timeout leave alone: the room in the
-- heap, the events of the common timeout lists, and the number of those.
use libevent.Common.{ℕ, ◌≡◌, ◌<◌, ◌&&◌, Bool, false, not, arith, ◌∙◌, Bool-cases, inl, inr}
use libevent.Timeval.{Timeval}
use libevent.MinHeap.Remove.{erase-Removed}
use libevent.EventBase.State.{EventBase, flags_of, times, is_common_timeout}
use libevent.EventBase.Queues.{remove_active}
use libevent.EventBase.Timeouts.{remove_timeout}
use libevent.EventBase.Timeouts.Invariant.{IsTimed-InRange}
use libevent.EventBase.Core.Defs.{gettime, abort_loop, drop_timeout}
use libevent.EventBase.Core.AddDefs.{remember, drop_expired}
use libevent.EventBase.Core.Base.{IsBase}

pub record Steady (b r : EventBase) : Type 0 where
  pub owners :
      (i : ℕ)
      → (r.common_timeout_queues i).timeout_event ≡ (b.common_timeout_queues i).timeout_event
  pub number : r.n_common_timeouts ≡ b.n_common_timeouts

pub Steady-trans : {a b c : EventBase} → Steady a b → Steady b c → Steady a c
Steady-trans h k = record { owners = λ i. k.owners i ∙ h.owners i; number = k.number ∙ h.number }

module _ (b : EventBase) (e : ℕ) where
  pub drop_timeout-Steady : Steady b (drop_timeout b e)
  unfolding drop_timeout remove_timeout
  drop_timeout-Steady = record { owners = λ i. ground arith; number = ground arith }

  pub drop_timeout-off : (flags_of (drop_timeout b e) e).timeout ≡ false
  unfolding drop_timeout remove_timeout
  drop_timeout-off = ground arith

  pub drop_expired-Steady : Steady b (drop_expired b e)
  unfolding drop_expired remove_active abort_loop
  drop_expired-Steady = record { owners = λ i. ground arith; number = ground arith }

  pub drop_expired-same :
      ((flags_of (drop_expired b e) e).timeout ≡ (flags_of b e).timeout)
      × ((drop_expired b e).timeheap ≡ b.timeheap)
  unfolding drop_expired remove_active abort_loop
  drop_expired-same = (ground arith, ground arith)

  pub remember-Steady : (tv : Timeval) (abs : Bool) → Steady b (remember b e tv abs)
  unfolding remember
  remember-Steady tv abs = record { owners = λ i. ground arith; number = ground arith }

  pub remember-same :
      (tv : Timeval) (abs : Bool)
      → ((flags_of (remember b e tv abs) e).timeout ≡ (flags_of b e).timeout)
        × ((remember b e tv abs).timeheap ≡ b.timeheap)
        × (times (remember b e tv abs) e ≡ times b e)
  unfolding remember
  remember-same tv abs = (ground arith, ground arith, ground arith)

pub gettime-Steady : (b : EventBase) → Steady b (gettime b).0
unfolding gettime
gettime-Steady b = record { owners = λ i. ground arith; number = ground arith }

pub gettime-same :
    (b : EventBase) (e : ℕ)
    → ((flags_of (gettime b).0 e).timeout ≡ (flags_of b e).timeout)
      × ((gettime b).0.timeheap ≡ b.timeheap)
unfolding gettime
gettime-same b e = (ground arith, ground arith)

-- A timeout has room in the heap if there is an entry left, or if the event leaves one.
abbrev pub HasRoom : EventBase → ℕ → Type 0
HasRoom b e =
    ((flags_of b e).timeout && not (is_common_timeout b (times b e))) ≡ false
    → b.timeheap.n < b.timeheap.a

pub HasRoom-agree :
    (b r : EventBase) (e : ℕ)
    → (flags_of r e).timeout ≡ (flags_of b e).timeout
    → times r e ≡ times b e
    → r.n_common_timeouts ≡ b.n_common_timeouts
    → r.timeheap ≡ b.timeheap
    → HasRoom b e
    → HasRoom r e
unfolding is_common_timeout
HasRoom-agree b r e f t n h k = rw (f, t, n, h) k

pub drop_timeout-room :
    (b : EventBase) (e : ℕ)
    → IsBase b
    → HasRoom b e
    → (drop_timeout b e).timeheap.n < (drop_timeout b e).timeheap.a
unfolding drop_timeout remove_timeout
drop_timeout-room b e v room =
    let erased = erase-Removed (times b) (IsTimed-InRange v.timed) b.timeheap v.timed.heap e in
    elim (Bool-cases ((flags_of b e).timeout && not (is_common_timeout b (times b e)))) [
      | inl plain ↦
          let gone = (erased.0 (v.timed.in_heap e ∙ plain)).1 in
          ground (arith, plain, gone.size, gone.allocated, v.timed.heap.room)
      | inr other ↦ ground (arith, other, room other)
    ]
