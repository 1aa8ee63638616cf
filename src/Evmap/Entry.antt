-- ===== src/Evmap/Entry.antt =====
-- One entry of the map when an event joins it or leaves it.
use libevent.Common.{ℕ, ◌≡◌, ◌≢◌, true, false, arith, some, update}
use libevent.Flags.{What}
use libevent.Evmap.Defs.{
  Evmap, EvmapIo, EvmapResult, Env, entry_plus, io_add_ctx, entry_minus, underflows, io_del_ctx,
}
use libevent.Evmap.Counts.{occurs, count_by-remove, IsEntry}

-- All but the descriptors' entries and the calls of the backend.
pub record SameFrame (m r : Evmap) : Type 0 where
  pub io_nentries : r.io_nentries ≡ m.io_nentries
  pub sigmap : r.sigmap ≡ m.sigmap
  pub sig_nentries : r.sig_nentries ≡ m.sig_nentries

-- An event joins the entry, or the entries are as they were.
abbrev pub Joined : (ℕ → What) → Evmap → ℕ → ℕ → EvmapIo → Evmap × EvmapResult → Type 0
Joined evs m fd e ctx (r, EvmapResult.failed) = r.io ≡ m.io
Joined evs m fd e ctx (r, EvmapResult.same) = r.io ≡ update m.io fd (some (entry_plus evs e ctx))
Joined evs m fd e ctx (r, EvmapResult.changed) = r.io ≡ update m.io fd (some (entry_plus evs e ctx))
Joined evs m fd e ctx (r, EvmapResult.fault) = ⊥

module _ (env : Env) (evs : ℕ → What) (m : Evmap) (fd e : ℕ) (ctx : EvmapIo)
    (v : IsEntry evs ctx) where
  pub io_add_ctx-Joined : Joined evs m fd e ctx (io_add_ctx env evs m fd e ctx)
  unfolding io_add_ctx
  io_add_ctx-Joined = ground arith

  pub io_add_ctx-SameFrame : SameFrame m (io_add_ctx env evs m fd e ctx).0
  unfolding io_add_ctx
  io_add_ctx-SameFrame = ground arith

  -- Where the entry was written, its counts fit.
  pub entry_plus-IsEntry :
      ((io_add_ctx env evs m fd e ctx).1 ≢ EvmapResult.failed) → IsEntry evs (entry_plus evs e ctx)
  unfolding io_add_ctx entry_plus
  entry_plus-IsEntry ok = ground arith

-- An event leaves the entry, also where the backend refuses the deletion; no assertion fails.
abbrev pub Left : (ℕ → What) → Evmap → ℕ → ℕ → EvmapIo → Evmap × EvmapResult → Type 0
Left evs m fd e ctx (r, res) =
    (r.io ≡ update m.io fd (some (entry_minus evs e ctx))) × (res ≢ EvmapResult.fault)

module _ (env : Env) (evs : ℕ → What) (m : Evmap) (fd e : ℕ) (ctx : EvmapIo) (v : IsEntry evs ctx)
    (here : occurs e ctx.events ≡ true) where
  not-underflows : underflows evs e ctx ≡ false
  unfolding underflows
  not-underflows = ground (
    arith,
    count_by-remove evs (λ w. w.read) e ctx.events here,
    count_by-remove evs (λ w. w.write) e ctx.events here,
    count_by-remove evs (λ w. w.closed) e ctx.events here,
  )

  pub io_del_ctx-Left : Left evs m fd e ctx (io_del_ctx env evs m fd e ctx)
  unfolding io_del_ctx
  io_del_ctx-Left = rw not-underflows (ground arith)

  pub io_del_ctx-SameFrame : SameFrame m (io_del_ctx env evs m fd e ctx).0
  unfolding io_del_ctx
  io_del_ctx-SameFrame = ground arith

  pub entry_minus-IsEntry : IsEntry evs (entry_minus evs e ctx)
  unfolding entry_minus
  entry_minus-IsEntry =
      let reads = count_by-remove evs (λ w. w.read) e ctx.events here in
      let writes = count_by-remove evs (λ w. w.write) e ctx.events here in
      let closes = count_by-remove evs (λ w. w.closed) e ctx.events here in
      record {
        reads = ground arith;
        writes = ground arith;
        closes = ground arith;
        read_bound = ground arith;
        write_bound = ground arith;
        close_bound = ground arith;
      }
