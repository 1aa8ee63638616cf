-- ===== src/EventBase/Core/Timer.antt =====
-- event_remove_timer_nolock_ keeps an event base right.
use libevent.Common.{ℕ, false, refl}
use libevent.Timeval.{timerclear}
use libevent.EventBase.State.{EventBase, flags_of}
use libevent.EventBase.Timeouts.{remove_timeout}
use libevent.EventBase.Core.Defs.{event_remove_timer}
use libevent.EventBase.Core.Base.{IsBase}
use libevent.EventBase.Core.Alike.{IsBase-Alike, IsBase-if, set_event-Alike}
use libevent.EventBase.Core.Drop.{remove_timeout-IsBase}

-- event_remove_timer_nolock_ of any event keeps the base right, and no assertion fails.
pub event_remove_timer-IsBase : (b : EventBase) (e : ℕ) → IsBase b → IsBase (event_remove_timer b e)
unfolding event_remove_timer
event_remove_timer-IsBase b e v =
    let b' = remove_timeout b e in
    IsBase-if (flags_of b e).timeout
      (λ on.
        let w = remove_timeout-IsBase b v e on in
        IsBase-Alike
          (set_event-Alike b' w.queued.fine e
            (record (b'.events e) { ev_io_timeout = timerclear; ev_ncalls = 0; ev_pncalls = false })
            (record { flags = refl; pri = refl; fd = refl; events = refl; timeout = refl }))
          w)
      (λ off. v)
