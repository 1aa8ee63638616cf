-- ===== src/Evmap/Signal.antt =====
-- evmap_signal_add_.
use libevent.Common.{
  ℕ, ◌^◌, ◌≤◌, ◌<◌, ◌≡◌, ◌≢◌, Bool, ◌&&◌, List, [], ◌∷◌, arith, ◌==◌, if◌then◌else◌, Option, some,
  none, update, refl, ◌∙◌, inl, inr, Option-cases, Bool-cases,
}
use native.Mathlib.Decide.{ℕ_discrete}
use libevent.Flags.{What}
use libevent.Evmap.Defs.{
  Evmap, EvmapResult, Env, Call, make_space, signal_add_ctx, evmap_signal_add, signal_waiting,
  succeeded, ask,
}
use libevent.Evmap.Counts.{IsEvmap}
use libevent.Evmap.Space.{make_space_room, make_overflows_small}

abbrev slot_of : Option (List ℕ) → List ℕ
slot_of none = []
slot_of (some ctx) = ctx

module _ (env : Env) (evs : ℕ → What) (m : Evmap) (v : IsEvmap evs m) where
  pub record SignalAdded (sig e : ℕ) (out : Evmap × EvmapResult) : Type 0 where
    pub valid : IsEvmap evs out.0
    pub no_fault : out.1 ≢ EvmapResult.fault
    pub waiting :
        (g : ℕ)
        → signal_waiting out.0 g
          ≡ (if succeeded out.1 && sig == g then e ∷ signal_waiting m g else signal_waiting m g)
    pub io : out.0.io ≡ m.io

  waits : (g : ℕ) → signal_waiting m g ≡ slot_of (m.sigmap g)
  unfolding signal_waiting
  waits g = elim (Option-cases (m.sigmap g)) [
    | inl missing ↦ rw missing (ground arith)
    | inr (ctx, here) ↦ rw here (ground (arith, v.sig_inside g ctx here))
  ]

  module _ (sig e n : ℕ) (room : sig < n) (kept : m.sig_nentries ≤ n) where
    -- The map with room for the slot and `slots` for its signals, after some calls.
    abbrev after : (ℕ → Option (List ℕ)) → List (Call × Bool) → Evmap
    after slots calls = record m { sigmap = slots; sig_nentries = n; calls = calls }

    module _ (slots : ℕ → Option (List ℕ)) (calls : List (Call × Bool)) where
      waits_after :
          (g : ℕ)
          → (sig ≢ g → slots g ≡ m.sigmap g)
          → signal_waiting (after slots calls) g ≡ slot_of (slots g)
      unfolding signal_waiting
      waits_after g others = elim (Option-cases (slots g)) [
        | inl missing ↦ rw missing (ground arith)
        | inr (ctx, here) ↦ rw here (ground (arith, v.sig_inside g ctx))
      ]

      after-SignalAdded :
          (res : EvmapResult)
          → res ≢ EvmapResult.fault
          → ((g : ℕ) → sig ≢ g → slots g ≡ m.sigmap g)
          → slot_of (slots sig)
            ≡ (if succeeded res then e ∷ slot_of (m.sigmap sig) else slot_of (m.sigmap sig))
          → SignalAdded sig e (after slots calls, res)
      after-SignalAdded res fine others own = record {
        valid = record {
          io_inside = v.io_inside;
          entries = v.entries;
          sig_inside = λ g ctx h. ground (arith, others g, v.sig_inside g ctx);
        };
        no_fault = fine;
        waiting = λ g. waits_after g (others g) ∙ elim (ℕ_discrete sig g) [
          | yes same ↦ ground (arith, own, waits g)
          | no ne ↦ ground (arith, others g, waits g)
        ];
        io = refl;
      }

    ctx-SignalAdded :
        (slots : ℕ → Option (List ℕ)) (ctx : List ℕ)
        → ((g : ℕ) → sig ≢ g → slots g ≡ m.sigmap g)
        → slots sig ≡ some ctx
        → slot_of (m.sigmap sig) ≡ ctx
        → SignalAdded sig e (signal_add_ctx env (after slots m.calls) sig e ctx)
    unfolding signal_add_ctx ask
    ctx-SignalAdded slots [] others here was =
        elim (Bool-cases (env.accepts m.calls (Call.sig_add sig))) [
          | inl ok ↦ rw ok (
              after-SignalAdded (update slots sig (some (e ∷ []))) _ EvmapResult.changed (λ bad. cc)
                (λ g ne. ground (arith, others g)) (ground arith))
          | inr refused ↦
              rw refused
                (after-SignalAdded slots _ EvmapResult.failed (λ bad. cc) others (ground arith))
        ]
    ctx-SignalAdded slots (x ∷ rest) others here was =
        after-SignalAdded (update slots sig (some (e ∷ x ∷ rest))) m.calls EvmapResult.changed
          (λ bad. cc) (λ g ne. ground (arith, others g)) (ground arith)

  -- evmap_signal_add_ for a signal below 2^27, on a map whose counts are right, which they stay: if it succeeds the event is
  -- first among those that wait on its signal, and otherwise, and on all other signals and
  -- descriptors, the same events wait as before.
  pub evmap_signal_add-SignalAdded :
      (sig e : ℕ) → sig < 2 ^ 27 → SignalAdded sig e (evmap_signal_add env m sig e)
  unfolding evmap_signal_add
  evmap_signal_add-SignalAdded sig e small =
      let fits = make_overflows_small m.sig_nentries sig small in
      elim (Option-cases (make_space env m.sig_nentries sig)) [
        | inl refused ↦
            rw (fits, evmap_signal_add, refused)
              (record { valid = v; no_fault = λ bad. cc; waiting = λ g. refl; io = refl })
        | inr (n, space) ↦
            let (room, kept) = make_space_room env m.sig_nentries sig n space in
            elim (Option-cases (m.sigmap sig)) [
              | inr (ctx, here) ↦
                  rw (fits, evmap_signal_add, space, here)
                    (ctx-SignalAdded sig e n room kept m.sigmap ctx (λ g ne. refl) here (rw here))
              | inl missing ↦
                  rw (fits, evmap_signal_add, space, missing)
                    (elim (Bool-cases (env.calloc_ok sig)) [
                      | inl got ↦ rw got (
                          ctx-SignalAdded sig e n room kept (update m.sigmap sig (some [])) []
                            (λ g ne. ground arith) (ground arith) (rw missing))
                      | inr refused ↦ rw refused (
                          after-SignalAdded sig e n room kept m.sigmap m.calls EvmapResult.failed
                            (λ bad. cc) (λ g ne. refl) refl)
                    ])
            ]
      ]
