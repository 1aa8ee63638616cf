-- ===== src/Evmap/SignalDel.antt =====
-- evmap_signal_del_.
use libevent.Common.{
  remove, ℕ, ◌≡◌, ◌≢◌, Bool, true, List, [], ◌∷◌, arith, leb, ◌==◌, if◌then◌else◌, some, update,
  refl, inl, inr, Option-cases, Bool-cases,
}
use native.Mathlib.Decide.{ℕ_discrete}
use libevent.Flags.{What}
use libevent.Evmap.Defs.{Evmap, EvmapResult, Env, Call, evmap_signal_del, signal_waiting, ask}
use libevent.Evmap.Counts.{occurs, IsEvmap}

module _ (env : Env) (evs : ℕ → What) (m : Evmap) (v : IsEvmap evs m) (sig e : ℕ) where
  -- What evmap_signal_del_ promises.
  pub record SignalDeleted (out : Evmap × EvmapResult) : Type 0 where
    pub valid : IsEvmap evs out.0
    pub no_fault : out.1 ≢ EvmapResult.fault
    pub waiting :
        (g : ℕ)
        → signal_waiting out.0 g
          ≡ (if sig == g then remove e (signal_waiting m g) else signal_waiting m g)
    pub io : out.0.io ≡ m.io

  module _ (ctx : List ℕ) (here : m.sigmap sig ≡ some ctx) where
    stored-SignalDeleted :
        (calls : List (Call × Bool)) (res : EvmapResult)
        → res ≢ EvmapResult.fault
        → SignalDeleted
            (record m { sigmap = update m.sigmap sig (some (remove e ctx)); calls = calls }, res)
    unfolding signal_waiting
    stored-SignalDeleted calls res fine = record {
      valid = record {
        io_inside = v.io_inside;
        entries = v.entries;
        sig_inside = λ g c h. ground (arith, v.sig_inside g c, v.sig_inside sig ctx here);
      };
      no_fault = fine;
      waiting = λ g. elim (ℕ_discrete sig g) [
        | yes same ↦ ground (arith, here, v.sig_inside sig ctx here)
        | no ne ↦ ground arith
      ];
      io = refl;
    }

    abbrev stored : Evmap
    stored = record m { sigmap = update m.sigmap sig (some (remove e ctx)) }

    ended-SignalDeleted :
        (left : List ℕ)
        → SignalDeleted (elim left [
          | x ∷ rest ↦ (stored, EvmapResult.changed)
          | [] ↦
              let (m', ok) = ask env stored (Call.sig_del sig) in
              (m', if ok then EvmapResult.changed else EvmapResult.failed)
        ])
    unfolding ask
    ended-SignalDeleted (x ∷ rest) = stored-SignalDeleted m.calls EvmapResult.changed (λ bad. cc)
    ended-SignalDeleted [] = stored-SignalDeleted _ _ (λ bad. ground arith)

  -- evmap_signal_del_ of an event that waits on the signal: the event waits there no longer, also
  -- where the backend refuses the deletion, and all others wait as before.
  pub evmap_signal_del-SignalDeleted :
      occurs e (signal_waiting m sig) ≡ true → SignalDeleted (evmap_signal_del env m sig e)
  unfolding evmap_signal_del signal_waiting
  evmap_signal_del-SignalDeleted h = elim (Bool-cases (leb m.sig_nentries sig)) [
    | inl outside ↦ absurd (ground (arith, outside))
    | inr inside ↦ elim (Option-cases (m.sigmap sig)) [
      | inl missing ↦ absurd (ground (arith, missing))
      | inr (ctx, here) ↦ rw (inside, here) (ended-SignalDeleted ctx here (remove e ctx))
    ]
  ]
