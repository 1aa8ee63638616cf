-- ===== src/Evmap/Same.antt =====
-- Two maps with the same slots show the same events.
use libevent.Common.{
  ℕ, ◌≡◌, List, [], Option, some, none, sym, ap, ◌∙◌, inl, inr, Option-cases, arith,
}
use libevent.Flags.{What}
use libevent.Evmap.Defs.{Evmap, EvmapIo, io_waiting, signal_waiting, events_of}
use libevent.Evmap.Counts.{IsEvmap}
use libevent.Evmap.Frame.{io_waiting-events_of}

slot_events : Option (List ℕ) → List ℕ
slot_events none = []
slot_events (some ctx) = ctx

signal_waiting-slot_events :
    (evs : ℕ → What) (m : Evmap) (g : ℕ)
    → IsEvmap evs m
    → signal_waiting m g ≡ slot_events (m.sigmap g)
unfolding signal_waiting slot_events
signal_waiting-slot_events evs m g v = elim (Option-cases (m.sigmap g)) [
  | inl missing ↦ rw missing (ground arith)
  | inr (c, here) ↦ rw here (ground (arith, v.sig_inside g c here))
]

module _ (evs : ℕ → What) (m r : Evmap) (v : IsEvmap evs m) (w : IsEvmap evs r) where
  pub same_io : r.io ≡ m.io → (g : ℕ) → io_waiting r g ≡ io_waiting m g
  same_io same g =
      io_waiting-events_of evs r g w
      ∙ ap (λ (f : ℕ → Option EvmapIo). events_of (f g)) same
      ∙ sym (io_waiting-events_of evs m g v)

  pub same_signals : r.sigmap ≡ m.sigmap → (g : ℕ) → signal_waiting r g ≡ signal_waiting m g
  same_signals same g =
      signal_waiting-slot_events evs r g w
      ∙ ap (λ (f : ℕ → Option (List ℕ)). slot_events (f g)) same
      ∙ sym (signal_waiting-slot_events evs m g v)
