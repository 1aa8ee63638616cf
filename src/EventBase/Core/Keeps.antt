-- ===== src/EventBase/Core/Keeps.antt =====
-- The operations on events that leave the queues of callbacks, or those of timeouts, as they are.
use libevent.Common.{ℕ, ◌≡◌, ◌≢◌, ◌<◌, true, false, arith}
use libevent.Evmap.{Evmap, EvmapResult}
use libevent.EventBase.State.{EventBase, flags_of}
use libevent.EventBase.Queues.{
  insert_active, remove_active, insert_active_later, remove_active_later,
}
use libevent.EventBase.Timeouts.{remove_timeout}
use libevent.EventBase.Core.Defs.{insert_inserted, remove_inserted, abort_loop, from_evmap}
use libevent.EventBase.Core.Agree.{QueuesAgree, TimeoutsAgree}

module _ (b : EventBase) (fine : b.aborted ≡ false) (e : ℕ) where
  pub remove_timeout-QueuesAgree :
      (flags_of b e).timeout ≡ true → QueuesAgree b (remove_timeout b e)
  unfolding remove_timeout
  remove_timeout-QueuesAgree on = record {
    activequeues = λ q. ground (arith, on);
    later = ground (arith, on);
    nactivequeues = ground (arith, on);
    counted = ground (arith, on);
    active = λ x. ground (arith, on);
    active_later = λ x. ground (arith, on);
    pris = λ x. ground (arith, on);
    fine = ground (arith, on, fine);
  }

  pub insert_active-TimeoutsAgree :
      (b.events e).ev_pri < b.nactivequeues → TimeoutsAgree b (insert_active b e)
  unfolding insert_active
  insert_active-TimeoutsAgree inside = record {
    timeheap = ground (arith, inside);
    lists = λ i. ground (arith, inside);
    cache = ground (arith, inside);
    clock = λ h n. ground (arith, inside, h n);
    number = ground (arith, inside);
    timeout = λ x. ground (arith, inside);
    times = λ x. ground (arith, inside);
    fine = ground (arith, inside, fine);
  }

  pub remove_active-TimeoutsAgree :
      (flags_of b e).active ≡ true → TimeoutsAgree b (remove_active b e)
  unfolding remove_active
  remove_active-TimeoutsAgree on = record {
    timeheap = ground (arith, on);
    lists = λ i. ground (arith, on);
    cache = ground (arith, on);
    clock = λ h n. ground (arith, on, h n);
    number = ground (arith, on);
    timeout = λ x. ground (arith, on);
    times = λ x. ground (arith, on);
    fine = ground (arith, on, fine);
  }

  pub insert_active_later-TimeoutsAgree :
      (b.events e).ev_pri < b.nactivequeues → TimeoutsAgree b (insert_active_later b e)
  unfolding insert_active_later
  insert_active_later-TimeoutsAgree inside = record {
    timeheap = ground (arith, inside);
    lists = λ i. ground (arith, inside);
    cache = ground (arith, inside);
    clock = λ h n. ground (arith, inside, h n);
    number = ground (arith, inside);
    timeout = λ x. ground (arith, inside);
    times = λ x. ground (arith, inside);
    fine = ground (arith, inside, fine);
  }

  pub remove_active_later-TimeoutsAgree :
      (flags_of b e).active_later ≡ true → TimeoutsAgree b (remove_active_later b e)
  unfolding remove_active_later
  remove_active_later-TimeoutsAgree on = record {
    timeheap = ground (arith, on);
    lists = λ i. ground (arith, on);
    cache = ground (arith, on);
    clock = λ h n. ground (arith, on, h n);
    number = ground (arith, on);
    timeout = λ x. ground (arith, on);
    times = λ x. ground (arith, on);
    fine = ground (arith, on, fine);
  }

  pub remove_inserted-QueuesAgree :
      (flags_of b e).inserted ≡ true → QueuesAgree b (remove_inserted b e)
  unfolding remove_inserted
  remove_inserted-QueuesAgree on = record {
    activequeues = λ q. ground (arith, on);
    later = ground (arith, on);
    nactivequeues = ground (arith, on);
    counted = ground (arith, on);
    active = λ x. ground (arith, on);
    active_later = λ x. ground (arith, on);
    pris = λ x. ground (arith, on);
    fine = ground (arith, on, fine);
  }

  pub remove_inserted-TimeoutsAgree :
      (flags_of b e).inserted ≡ true → TimeoutsAgree b (remove_inserted b e)
  unfolding remove_inserted
  remove_inserted-TimeoutsAgree on = record {
    timeheap = ground (arith, on);
    lists = λ i. ground (arith, on);
    cache = ground (arith, on);
    clock = λ h n. ground (arith, on, h n);
    number = ground (arith, on);
    timeout = λ x. ground (arith, on);
    times = λ x. ground (arith, on);
    fine = ground (arith, on, fine);
  }

  pub insert_inserted-QueuesAgree :
      (flags_of b e).inserted ≡ false → QueuesAgree b (insert_inserted b e)
  unfolding insert_inserted
  insert_inserted-QueuesAgree off = record {
    activequeues = λ q. ground (arith, off);
    later = ground (arith, off);
    nactivequeues = ground (arith, off);
    counted = ground (arith, off);
    active = λ x. ground (arith, off);
    active_later = λ x. ground (arith, off);
    pris = λ x. ground (arith, off);
    fine = ground (arith, off, fine);
  }

  pub insert_inserted-TimeoutsAgree :
      (flags_of b e).inserted ≡ false → TimeoutsAgree b (insert_inserted b e)
  unfolding insert_inserted
  insert_inserted-TimeoutsAgree off = record {
    timeheap = ground (arith, off);
    lists = λ i. ground (arith, off);
    cache = ground (arith, off);
    clock = λ h n. ground (arith, off, h n);
    number = ground (arith, off);
    timeout = λ x. ground (arith, off);
    times = λ x. ground (arith, off);
    fine = ground (arith, off, fine);
  }

  pub abort_loop-QueuesAgree : QueuesAgree b (abort_loop b e)
  unfolding abort_loop
  abort_loop-QueuesAgree = record {
    activequeues = λ q. ground arith;
    later = ground arith;
    nactivequeues = ground arith;
    counted = ground arith;
    active = λ x. ground arith;
    active_later = λ x. ground arith;
    pris = λ x. ground arith;
    fine = ground (arith, fine);
  }

  pub abort_loop-TimeoutsAgree : TimeoutsAgree b (abort_loop b e)
  unfolding abort_loop
  abort_loop-TimeoutsAgree = record {
    timeheap = ground arith;
    lists = λ i. ground arith;
    cache = ground arith;
    clock = λ h n. ground (arith, h n);
    number = ground arith;
    timeout = λ x. ground arith;
    times = λ x. ground arith;
    fine = ground (arith, fine);
  }

module _ (b : EventBase) (fine : b.aborted ≡ false) (out : Evmap × EvmapResult) where
  pub from_evmap-QueuesAgree : out.1 ≢ EvmapResult.fault → QueuesAgree b (from_evmap b out).0
  unfolding from_evmap
  from_evmap-QueuesAgree ok = record {
    activequeues = λ q. ground (arith, ok);
    later = ground (arith, ok);
    nactivequeues = ground (arith, ok);
    counted = ground (arith, ok);
    active = λ x. ground (arith, ok);
    active_later = λ x. ground (arith, ok);
    pris = λ x. ground (arith, ok);
    fine = ground (arith, ok, fine);
  }

  pub from_evmap-TimeoutsAgree : out.1 ≢ EvmapResult.fault → TimeoutsAgree b (from_evmap b out).0
  unfolding from_evmap
  from_evmap-TimeoutsAgree ok = record {
    timeheap = ground (arith, ok);
    lists = λ i. ground (arith, ok);
    cache = ground (arith, ok);
    clock = λ h n. ground (arith, ok, h n);
    number = ground (arith, ok);
    timeout = λ x. ground (arith, ok);
    times = λ x. ground (arith, ok);
    fine = ground (arith, ok, fine);
  }
