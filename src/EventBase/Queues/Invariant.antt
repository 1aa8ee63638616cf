-- ===== src/EventBase/Queues/Invariant.antt =====
-- The queues of active callbacks against the flags of the callbacks and their number: what
-- event_base_assert_ok_nolock_ checks of them.
use libevent.Common.{
  ℕ, ◌+◌, ◌&&◌, ◌≡◌, ◌<◌, true, false, List, [], ◌∷◌, ◌++◌, ◌==◌, if◌then◌else◌, arith, count,
  length, total, remove, count-append_one, count-remove, length-append_one, length-remove,
  total-update, refl, ap,
}
use libevent.EventBase.State.{EventBase, flags_of}
use libevent.EventBase.Queues.Defs.{
  insert_active, remove_active, insert_active_later, remove_active_later, make_one_active,
  make_later_active, make_later_events_active,
}

abbrev pub if_active : EventBase → ℕ → ℕ → ℕ
if_active b e q = if (flags_of b e).active && (b.events e).ev_pri == q then 1 else 0

-- A callback stands once in the queue of its priority if it is active, once in the later queue if it
-- is to be active later, and nowhere else; it is not both. The count of active callbacks is right.
pub record IsQueued (b : EventBase) : Type 0 where
  pub queued : (e q : ℕ) → count e (b.activequeues q) ≡ if_active b e q
  pub later :
      (e : ℕ) → count e b.active_later_queue ≡ (if (flags_of b e).active_later then 1 else 0)
  pub exclusive : (e : ℕ) → ((flags_of b e).active && (flags_of b e).active_later) ≡ false
  pub pris : (e : ℕ) → (b.events e).ev_pri < b.nactivequeues
  pub counted :
      b.event_count_active ≡ total b.activequeues b.nactivequeues + length b.active_later_queue
  pub fine : b.aborted ≡ false

module _ (b : EventBase) (v : IsQueued b) (e : ℕ) where
  -- event_queue_insert_active of a callback that is not waiting to be active later.
  pub insert_active-IsQueued : (flags_of b e).active_later ≡ false → IsQueued (insert_active b e)
  unfolding insert_active
  insert_active-IsQueued out =
      let q = (b.events e).ev_pri in
      let inside = v.pris e in
      record {
        queued =
            λ x r. ground (arith, inside, v.queued x r, count-append_one x e (b.activequeues q));
        later = λ x. ground (arith, inside, v.later x);
        exclusive = λ x. ground (arith, inside, v.exclusive x);
        pris = λ x. ground (arith, inside, v.pris x);
        counted = ground (
          arith,
          inside,
          v.counted,
          length-append_one e (b.activequeues q),
          total-update b.activequeues q (b.activequeues q ++ e ∷ []) b.nactivequeues,
        );
        fine = ground (arith, inside, v.fine);
      }

  -- event_queue_remove_active of an active callback.
  pub remove_active-IsQueued : (flags_of b e).active ≡ true → IsQueued (remove_active b e)
  unfolding remove_active
  remove_active-IsQueued on =
      let q = (b.events e).ev_pri in
      let here = v.queued e q in
      record {
        queued = λ x r. ground (arith, v.queued x r, count-remove x e (b.activequeues q));
        later = λ x. ground (arith, v.later x);
        exclusive = λ x. ground (arith, v.exclusive x);
        pris = λ x. ground (arith, v.pris x);
        counted = ground (
          arith,
          here,
          v.pris e,
          v.counted,
          length-remove e (b.activequeues q),
          total-update b.activequeues q (remove e (b.activequeues q)) b.nactivequeues,
        );
        fine = ground (arith, v.fine);
      }

  -- event_queue_insert_active_later.
  pub insert_active_later-IsQueued : IsQueued (insert_active_later b e)
  unfolding insert_active_later
  insert_active_later-IsQueued =
      let inside = v.pris e in
      record {
        queued = λ x r. ground (arith, inside, v.queued x r);
        later = λ x. ground (arith, inside, v.later x, count-append_one x e b.active_later_queue);
        exclusive = λ x. ground (arith, inside, v.exclusive x);
        pris = λ x. ground (arith, inside, v.pris x);
        counted = ground (arith, inside, v.counted, length-append_one e b.active_later_queue);
        fine = ground (arith, inside, v.fine);
      }

  -- event_queue_remove_active_later of a callback that is waiting to be active later.
  pub remove_active_later-IsQueued :
      (flags_of b e).active_later ≡ true → IsQueued (remove_active_later b e)
  unfolding remove_active_later
  remove_active_later-IsQueued on =
      let here = v.later e in
      record {
        queued = λ x r. ground (arith, v.queued x r, v.exclusive e);
        later = λ x. ground (arith, v.later x, count-remove x e b.active_later_queue);
        exclusive = λ x. ground (arith, v.exclusive x);
        pris = λ x. ground (arith, v.pris x);
        counted = ground (arith, here, v.counted, length-remove e b.active_later_queue);
        fine = ground (arith, v.fine);
      }

  -- The first callback of the later queue becomes active.
  make_one_active-IsQueued :
      (rest : List ℕ) → b.active_later_queue ≡ e ∷ rest → IsQueued (make_one_active b e rest)
  unfolding make_one_active
  make_one_active-IsQueued rest first =
      let q = (b.events e).ev_pri in
      let inside = v.pris e in
      let at = λ (x : ℕ). ap (count x) first in
      let size = ap length first in
      record {
        queued = λ x r. ground (
          arith,
          inside,
          at e,
          v.later e,
          v.exclusive e,
          v.queued x r,
          count-append_one x e (b.activequeues q),
        );
        later = λ x. ground (arith, inside, at x, v.later x);
        exclusive = λ x. ground (arith, inside, v.exclusive x);
        pris = λ x. ground (arith, inside, v.pris x);
        counted = ground (
          arith,
          inside,
          size,
          v.counted,
          length-append_one e (b.activequeues q),
          total-update b.activequeues q (b.activequeues q ++ e ∷ []) b.nactivequeues,
        );
        fine = ground (arith, inside, v.fine);
      }

make_one_active-rest :
    (b : EventBase) (e : ℕ) (rest : List ℕ) → (make_one_active b e rest).active_later_queue ≡ rest
unfolding make_one_active
make_one_active-rest b e rest = ground arith

make_later_active-IsQueued :
    (b : EventBase) (xs : List ℕ)
    → IsQueued b
    → b.active_later_queue ≡ xs
    → IsQueued (make_later_active b xs) × ((make_later_active b xs).active_later_queue ≡ [])
unfolding make_later_active
make_later_active-IsQueued b [] v e = (v, e)
make_later_active-IsQueued b (x ∷ rest) v e =
    make_later_active-IsQueued (make_one_active b x rest) rest
      (make_one_active-IsQueued b v x rest e) (make_one_active-rest b x rest)

-- event_queue_make_later_events_active on a base whose queues are right: no assertion fails, the
-- queues stay right, and no callback is left in the later queue.
pub make_later_events_active-IsQueued :
    (b : EventBase)
    → IsQueued b
    → IsQueued (make_later_events_active b) × ((make_later_events_active b).active_later_queue ≡ [])
unfolding make_later_events_active
make_later_events_active-IsQueued b v = make_later_active-IsQueued b b.active_later_queue v refl
