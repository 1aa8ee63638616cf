-- ===== src/Evmap/Io.antt =====
-- evmap_io_add_ and evmap_io_del_.
use libevent.Common.{
  remove, ℕ, ◌^◌, ◌<◌, ◌≡◌, ◌≢◌, true, false, arith, leb, ◌==◌, if◌then◌else◌, Option, some, none,
  update, refl, ap, ◌∙◌, inl, inr, Option-cases, Bool-cases,
}
use native.Mathlib.Decide.{ℕ_discrete}
use libevent.Flags.{What}
use libevent.Evmap.Defs.{
  Evmap, EvmapIo, EvmapResult, Env, make_space, evmap_io_init, evmap_io_add, entry_minus,
  io_del_ctx, evmap_io_del, io_waiting, events_of,
}
use libevent.Evmap.Counts.{occurs, IsEvmap}
use libevent.Evmap.Space.{make_space_room, make_overflows_small}
use libevent.Evmap.Entry.{io_del_ctx-Left, io_del_ctx-SameFrame, entry_minus-IsEntry}
use libevent.Evmap.Frame.{
  updated-IsEvmap, io_waiting-events_of, Added, failed-Added, io_add_ctx-Added,
}

module _ (env : Env) (evs : ℕ → What) (m : Evmap) (v : IsEvmap evs m) where
  module _ (fd e n : ℕ) (space : make_space env m.io_nentries fd ≡ some n) where
    abbrev spaced : Evmap
    spaced = record m { io_nentries = n }

    spaced-IsEvmap : IsEvmap evs spaced
    spaced-IsEvmap =
        let (room, kept) = make_space_room env m.io_nentries fd n space in
        record {
          io_inside = λ g c h. omega (arith, v.io_inside g c h);
          entries = v.entries;
          sig_inside = v.sig_inside;
        }

    abbrev made : Evmap
    made = record spaced { io = update m.io fd (some evmap_io_init) }

    made-IsEvmap : IsEvmap evs made
    made-IsEvmap =
        let (room, kept) = make_space_room env m.io_nentries fd n space in
        record {
          io_inside = λ g c h. ground (arith, v.io_inside g c);
          entries = λ g c h. elim (ℕ_discrete fd g) [
            | yes same ↦ let at : evmap_io_init ≡ c = ground arith in rw (← at) (omega arith)
            | no ne ↦ v.entries g c (ground arith)
          ];
          sig_inside = v.sig_inside;
        }

  -- evmap_io_add_ for a descriptor below 2^27, on a map whose counts are right: no assertion fails and the counts stay right,
  -- also where it fails; if it succeeds the event is first among those that wait on its descriptor,
  -- and otherwise, and on all other descriptors and signals, the same events wait as before.
  pub evmap_io_add-Added :
      (fd : Option ℕ) (e : ℕ)
      → ((g : ℕ) → fd ≡ some g → g < 2 ^ 27)
      → Added env evs m v fd e (evmap_io_add env evs m fd e)
  unfolding evmap_io_add
  evmap_io_add-Added none e small = record {
    valid = v;
    no_fault = λ bad. cc;
    waiting = λ g. refl;
    signals = refl;
  }
  evmap_io_add-Added (some fd) e small =
      let fits = make_overflows_small m.io_nentries fd (small fd refl) in
      elim (Option-cases (make_space env m.io_nentries fd)) [
        | inl refused ↦
            rw (fits, evmap_io_add, refused)
              (record { valid = v; no_fault = λ bad. cc; waiting = λ g. refl; signals = refl })
        | inr (n, space) ↦
            let (room, kept) = make_space_room env m.io_nentries fd n space in
            let u = spaced-IsEvmap fd e n space in
            elim (Option-cases (m.io fd)) [
              | inr (ctx, here) ↦
                  rw (fits, evmap_io_add, space, here)
                    (io_add_ctx-Added env evs m v (spaced fd e n space) u refl fd e ctx room
                      (λ g. refl) (rw here) (v.entries fd ctx here))
              | inl missing ↦
                  rw (fits, evmap_io_add, space, missing)
                    (elim (Bool-cases (env.calloc_ok fd)) [
                      | inl got ↦ rw got (
                          io_add_ctx-Added env evs m v (made fd e n space)
                            (made-IsEvmap fd e n space) refl fd e evmap_io_init room
                            (λ g. ground (arith, missing)) (rw missing) (omega arith))
                      | inr refused ↦
                          let w = spaced fd e n space in
                          rw refused (
                            failed-Added env evs m v w u refl fd e evmap_io_init room (λ g. refl)
                              (rw missing) w
                              (record { io_nentries = refl; sigmap = refl; sig_nentries = refl })
                              refl)
                    ])
            ]
      ]

  -- What evmap_io_del_ promises of an event that waits on the descriptor.
  pub record Deleted (fd e : ℕ) (out : Evmap × EvmapResult) : Type 0 where
    pub valid : IsEvmap evs out.0
    pub no_fault : out.1 ≢ EvmapResult.fault
    pub waiting :
        (g : ℕ)
        → io_waiting out.0 g ≡ (if fd == g then remove e (io_waiting m g) else io_waiting m g)
    pub signals : out.0.sigmap ≡ m.sigmap

  out-Deleted :
      (fd e : ℕ) (ctx : EvmapIo)
      → fd < m.io_nentries
      → m.io fd ≡ some ctx
      → occurs e ctx.events ≡ true
      → Deleted fd e (io_del_ctx env evs m fd e ctx)
  out-Deleted fd e ctx inside here h =
      let entry = v.entries fd ctx here in
      let frame = io_del_ctx-SameFrame env evs m fd e ctx entry h in
      let (same, fine) = io_del_ctx-Left env evs m fd e ctx entry h in
      let r = (io_del_ctx env evs m fd e ctx).0 in
      let less = entry_minus-IsEntry env evs m fd e ctx entry h in
      let w = updated-IsEvmap evs m r v frame fd (entry_minus evs e ctx) inside less same in
      record {
        valid = w;
        no_fault = fine;
        waiting = λ g.
            let at = ap (λ (f : ℕ → Option EvmapIo). f g) same in
            io_waiting-events_of evs r g w
            ∙ ap events_of at
            ∙ unfold entry_minus in ground (arith, here, io_waiting-events_of evs m g v);
        signals = frame.sigmap;
      }

  -- evmap_io_del_ of an event that waits on the descriptor, on a map whose counts are right: no
  -- assertion fails and the counts stay right; the event waits there no longer, also where the
  -- backend refuses the deletion, and all others wait as before.
  pub evmap_io_del-Deleted :
      (fd e : ℕ)
      → occurs e (io_waiting m fd) ≡ true
      → Deleted fd e (evmap_io_del env evs m (some fd) e)
  unfolding evmap_io_del
  evmap_io_del-Deleted fd e h = elim (Option-cases (m.io fd)) [
    | inl missing ↦
        let nobody = io_waiting-events_of evs m fd v ∙ ap events_of missing in
        absurd (ground (arith, nobody))
    | inr (ctx, here) ↦
        let inside = v.io_inside fd ctx here in
        let at : io_waiting m fd ≡ ctx.events =
          io_waiting-events_of evs m fd v ∙ ap events_of here in
        let h' : occurs e ctx.events ≡ true = rw at at h in
        let present : leb m.io_nentries fd ≡ false = ground arith in
        rw (present, evmap_io_del, here) (out-Deleted fd e ctx inside here h')
  ]
