-- ===== src/Evmap/Frame.antt =====
-- What an operation on one descriptor leaves of the rest of the map.
use libevent.Common.{
  ℕ, ◌<◌, ◌≡◌, ◌≢◌, Bool, true, ◌&&◌, List, ◌∷◌, arith, ◌==◌, if◌then◌else◌, Option, some, none,
  update, refl, ap, ◌∙◌, inl, inr, Option-cases, sym,
}
use native.Mathlib.Decide.{ℕ_discrete}
use libevent.Flags.{What}
use libevent.Evmap.Defs.{
  Evmap, EvmapIo, EvmapResult, Env, entry_plus, io_add_ctx, io_waiting, events_of, succeeded,
}
use libevent.Evmap.Counts.{IsEntry, IsEvmap}
use libevent.Evmap.Entry.{
  SameFrame, Joined, io_add_ctx-Joined, io_add_ctx-SameFrame, entry_plus-IsEntry,
}

module _ (evs : ℕ → What) (m r : Evmap) (v : IsEvmap evs m) (frame : SameFrame m r) where
  sig_inside : (sig : ℕ) (c : List ℕ) → r.sigmap sig ≡ some c → sig < r.sig_nentries
  sig_inside sig c h =
      let at = ap (λ (f : ℕ → Option (List ℕ)). f sig) frame.sigmap in
      omega (arith, frame.sig_nentries, v.sig_inside sig c (sym at ∙ h))

  -- No entry has changed.
  pub unchanged-IsEvmap : r.io ≡ m.io → IsEvmap evs r
  unchanged-IsEvmap same =
      let at = λ (g : ℕ). ap (λ (f : ℕ → Option EvmapIo). f g) same in
      record {
        io_inside = λ g d h. omega (arith, frame.io_nentries, v.io_inside g d (sym (at g) ∙ h));
        entries = λ g d h. v.entries g d (sym (at g) ∙ h);
        sig_inside = sig_inside;
      }

  -- The entry of one slot is new.
  module _ (fd : ℕ) (c : EvmapIo) (inside : fd < m.io_nentries) (w : IsEntry evs c) where
    pub updated-IsEvmap : r.io ≡ update m.io fd (some c) → IsEvmap evs r
    updated-IsEvmap same =
        let at = λ (g : ℕ). ap (λ (f : ℕ → Option EvmapIo). f g) same in
        record {
          io_inside = λ g d h. ground (arith, at g, v.io_inside g d, frame.io_nentries);
          entries = λ g d h. elim (ℕ_discrete fd g) [
            | yes e ↦ let at_fd : c ≡ d = ground (arith, at g) in rw at_fd at w
            | no ne ↦ v.entries g d (ground (arith, at g))
          ];
          sig_inside = sig_inside;
        }

-- The events that wait on a descriptor, whatever the number of entries.
pub io_waiting-events_of :
    (evs : ℕ → What) (m : Evmap) (g : ℕ) → IsEvmap evs m → io_waiting m g ≡ events_of (m.io g)
unfolding io_waiting
io_waiting-events_of evs m g v = elim (Option-cases (m.io g)) [
  | inl missing ↦ rw missing (ground arith)
  | inr (c, here) ↦ rw here (ground (arith, v.io_inside g c here))
]

-- The events that wait on `g` when `e` has joined those of `fd`.
abbrev pub joined : Bool → Option ℕ → ℕ → ℕ → List ℕ → List ℕ
joined done none e g xs = xs
joined done (some fd) e g xs = if done && fd == g then e ∷ xs else xs

module _ (env : Env) (evs : ℕ → What) (m : Evmap) (v : IsEvmap evs m) where
  -- What evmap_io_add_ promises.
  pub record Added (fd : Option ℕ) (e : ℕ) (out : Evmap × EvmapResult) : Type 0 where
    pub valid : IsEvmap evs out.0
    pub no_fault : out.1 ≢ EvmapResult.fault
    pub waiting : (g : ℕ) → io_waiting out.0 g ≡ joined (succeeded out.1) fd e g (io_waiting m g)
    pub signals : out.0.sigmap ≡ m.sigmap

  -- A map that has an entry for the slot, and for the rest the events of `m`.
  module _ (spaced : Evmap) (u : IsEvmap evs spaced) (sig : spaced.sigmap ≡ m.sigmap) (fd e : ℕ)
      (ctx : EvmapIo) (inside : fd < spaced.io_nentries)
      (others : (g : ℕ) → events_of (spaced.io g) ≡ events_of (m.io g))
      (here : ctx.events ≡ events_of (m.io fd)) where
    waits : (r : Evmap) (g : ℕ) → IsEvmap evs r → io_waiting r g ≡ events_of (r.io g)
    waits r g = io_waiting-events_of evs r g

    pub failed-Added :
        (r : Evmap)
        → SameFrame spaced r
        → r.io ≡ spaced.io
        → Added (some fd) e (r, EvmapResult.failed)
    failed-Added r frame same =
        let w = unchanged-IsEvmap evs spaced r u frame same in
        record {
          valid = w;
          no_fault = λ bad. cc;
          waiting = λ g.
              waits r g w
              ∙ ap (λ (f : ℕ → Option EvmapIo). events_of (f g)) same
              ∙ others g
              ∙ sym (waits m g v);
          signals = frame.sigmap ∙ sig;
        }

    done-Added :
        (r : Evmap) (res : EvmapResult)
        → SameFrame spaced r
        → IsEntry evs (entry_plus evs e ctx)
        → r.io ≡ update spaced.io fd (some (entry_plus evs e ctx))
        → res ≢ EvmapResult.fault
        → succeeded res ≡ true
        → Added (some fd) e (r, res)
    done-Added r res frame entry same fine ok =
        let w = updated-IsEvmap evs spaced r u frame fd (entry_plus evs e ctx) inside entry same in
        record {
          valid = w;
          no_fault = fine;
          waiting = λ g.
              let at = ap (λ (f : ℕ → Option EvmapIo). f g) same in
              waits r g w
              ∙ ap events_of at
              ∙ rw ok (unfold entry_plus in ground (arith, others g, waits m g v, here));
          signals = frame.sigmap ∙ sig;
        }

    pub out-Added :
        (out : Evmap × EvmapResult)
        → SameFrame spaced out.0
        → (out.1 ≢ EvmapResult.failed → IsEntry evs (entry_plus evs e ctx))
        → Joined evs spaced fd e ctx out
        → Added (some fd) e out
    out-Added (r, EvmapResult.failed) frame entry j = failed-Added r frame j
    out-Added (r, EvmapResult.same) frame entry j =
        done-Added r EvmapResult.same frame (entry (λ bad. cc)) j (λ bad. cc) refl
    out-Added (r, EvmapResult.changed) frame entry j =
        done-Added r EvmapResult.changed frame (entry (λ bad. cc)) j (λ bad. cc) refl
    out-Added (r, EvmapResult.fault) frame entry j = absurd j

    pub io_add_ctx-Added : IsEntry evs ctx → Added (some fd) e (io_add_ctx env evs spaced fd e ctx)
    io_add_ctx-Added entry =
        out-Added (io_add_ctx env evs spaced fd e ctx)
          (io_add_ctx-SameFrame env evs spaced fd e ctx entry)
          (entry_plus-IsEntry env evs spaced fd e ctx entry)
          (io_add_ctx-Joined env evs spaced fd e ctx entry)
