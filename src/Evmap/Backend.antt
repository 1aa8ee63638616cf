-- ===== src/Evmap/Backend.antt =====
-- What the backend is told about a descriptor, against what the map says.
use libevent.Common.{
  ℕ, ◌^◌, ◌<◌, ◌≡◌, refl, sym, ◌∙◌, ltb, Bool, true, false, ◌||◌, ◌&&◌, not, List, [], ◌∷◌, arith,
  leb, ◌==◌, if◌then◌else◌, Option, some, none, update, inl, inr, Option-cases, Bool-cases,
}
use libevent.Flags.{What}
use libevent.Evmap.Defs.{
  Interest, Evmap, EvmapIo, Env, Call, make_space, evmap_io_init, interest, entry_plus,
  make_overflows, io_waiting, newly_wanted, io_add_ctx, evmap_io_add, no_longer_wanted, io_del_ctx,
  evmap_io_del,
}
use libevent.Evmap.Counts.{IsEvmap, count_by, occurs}
use libevent.Evmap.Frame.{io_waiting-events_of}
use libevent.Evmap.Io.{evmap_io_add-Added, evmap_io_del-Deleted}

abbrev no_interest : Interest
no_interest = record { read = false; write = false; closed = false }

abbrev interest_or : Interest → Interest → Interest
interest_or a b = record {
  read = a.read || b.read;
  write = a.write || b.write;
  closed = a.closed || b.closed;
}

abbrev interest_without : Interest → Interest → Interest
interest_without a b = record {
  read = a.read && not b.read;
  write = a.write && not b.write;
  closed = a.closed && not b.closed;
}

-- What the backend watches a descriptor for after the calls that it has accepted.
unfoldable pub watched : List (Call × Bool) → ℕ → Interest
watched [] g = no_interest
watched ((Call.add fd old new et, ok) ∷ calls) g =
    let before = watched calls g in if ok && fd == g then interest_or before new else before
watched ((Call.del fd old gone, ok) ∷ calls) g =
    let before = watched calls g in if ok && fd == g then interest_without before gone else before
watched ((Call.sig_add sig, ok) ∷ calls) g = watched calls g
watched ((Call.sig_del sig, ok) ∷ calls) g = watched calls g

abbrev interest_of : Option EvmapIo → Interest
interest_of none = no_interest
interest_of (some ctx) = interest ctx

-- The backend watches each descriptor for the conditions that the counts of its entry give.
abbrev IsCounted : Evmap → Type 0
IsCounted m = (g : ℕ) → watched m.calls g ≡ interest_of (m.io g)

-- What the events of a list wait for.
abbrev pub waited_for : (ℕ → What) → List ℕ → Interest
waited_for evs [] = no_interest
waited_for evs (e ∷ es) =
    interest_or (record { read = (evs e).read; write = (evs e).write; closed = (evs e).closed })
      (waited_for evs es)

-- The backend watches each descriptor for just what the events in the list of the map wait for.
abbrev pub IsWatched : (ℕ → What) → Evmap → Type 0
IsWatched evs m = (g : ℕ) → watched m.calls g ≡ waited_for evs (io_waiting m g)

-- The counts of an entry that is right say what its events wait for.
waited_for-count :
    (evs : ℕ → What) (es : List ℕ)
    → waited_for evs es ≡ record {
      read = ltb 0 (count_by evs (λ w. w.read) es);
      write = ltb 0 (count_by evs (λ w. w.write) es);
      closed = ltb 0 (count_by evs (λ w. w.closed) es);
    }
waited_for-count evs [] = ground arith
waited_for-count evs (e ∷ es) = ground (arith, waited_for-count evs es)

interest_of-waited_for :
    (evs : ℕ → What) (m : Evmap) (g : ℕ)
    → IsEvmap evs m
    → interest_of (m.io g) ≡ waited_for evs (io_waiting m g)
interest_of-waited_for evs m g v = elim (Option-cases (m.io g)) [
  | inl missing ↦ rw (io_waiting-events_of evs m g v, missing) refl
  | inr (ctx, here) ↦
      let entry = v.entries g ctx here in
      let counts = waited_for-count evs ctx.events in
      rw (io_waiting-events_of evs m g v, here)
        (ground (arith, counts, entry.reads, entry.writes, entry.closes))
]

module _ (env : Env) (evs : ℕ → What) (m : Evmap) (fd e : ℕ) (ctx : EvmapIo) where
  -- The entry's conditions with one event more.
  interest-entry_plus :
      interest (entry_plus evs e ctx) ≡ interest_or (interest ctx) (newly_wanted evs e ctx)
  unfolding entry_plus newly_wanted
  interest-entry_plus = ground arith

  io_add_ctx-IsCounted :
      IsCounted m → m.io fd ≡ some ctx → IsCounted (io_add_ctx env evs m fd e ctx).0
  unfolding io_add_ctx watched
  io_add_ctx-IsCounted w here g = ground (arith, w g, w fd, interest-entry_plus)

  io_del_ctx-IsCounted :
      IsCounted m
      → m.io fd ≡ some ctx
      → env.accepts m.calls (Call.del fd (interest ctx) (no_longer_wanted evs e ctx)) ≡ true
      → IsCounted (io_del_ctx env evs m fd e ctx).0
  unfolding io_del_ctx watched
  io_del_ctx-IsCounted w here ok g = ground (arith, w g, w fd)

module _ (env : Env) (evs : ℕ → What) (m : Evmap) (w : IsCounted m) where
  evmap_io_add-IsCounted : (fd : Option ℕ) (e : ℕ) → IsCounted (evmap_io_add env evs m fd e).0
  unfolding evmap_io_add
  evmap_io_add-IsCounted none e = w
  evmap_io_add-IsCounted (some fd) e = elim (Bool-cases (make_overflows m.io_nentries fd)) [
    | inl over ↦ rw (over, evmap_io_add) w
    | inr fits ↦ elim (Option-cases (make_space env m.io_nentries fd)) [
      | inl refused ↦ rw (fits, evmap_io_add, refused) w
      | inr (n, space) ↦
          let spaced = record m { io_nentries = n } in
          let made = record spaced { io = update m.io fd (some evmap_io_init) } in
          elim (Option-cases (m.io fd)) [
            | inr (ctx, here) ↦
                rw (fits, evmap_io_add, space, here)
                  (io_add_ctx-IsCounted env evs spaced fd e ctx w here)
            | inl missing ↦
                rw (fits, evmap_io_add, space, missing)
                  (elim (Bool-cases (env.calloc_ok fd)) [
                    | inl got ↦ rw got (
                        io_add_ctx-IsCounted env evs made fd e evmap_io_init
                          (λ g. ground (arith, w g, missing)) (ground arith))
                    | inr refused ↦ rw refused w
                  ])
          ]
    ]
  ]

  evmap_io_del-IsCounted :
      (fd : Option ℕ) (e : ℕ)
      → ((calls : List (Call × Bool)) (f : ℕ) (old gone : Interest)
          → env.accepts calls (Call.del f old gone) ≡ true)
      → IsCounted (evmap_io_del env evs m fd e).0
  unfolding evmap_io_del
  evmap_io_del-IsCounted none e ok = w
  evmap_io_del-IsCounted (some fd) e ok = elim (Bool-cases (leb m.io_nentries fd)) [
    | inl outside ↦ rw (outside, evmap_io_del) w
    | inr inside ↦ elim (Option-cases (m.io fd)) [
      | inl missing ↦ rw (inside, evmap_io_del, missing) w
      | inr (ctx, here) ↦
          rw (inside, evmap_io_del, here)
            (io_del_ctx-IsCounted env evs m fd e ctx w here (ok m.calls fd (interest ctx) _))
    ]
  ]

module _ (env : Env) (evs : ℕ → What) (m : Evmap) (v : IsEvmap evs m) (w : IsWatched evs m) where
  counted : IsCounted m
  counted g = w g ∙ sym (interest_of-waited_for evs m g v)

  -- After evmap_io_add_ for a descriptor below 2^27, on a map whose counts are right, whatever it
  -- returns and whether or not the backend refuses, the backend watches each descriptor for exactly
  -- what the events in the map wait for on it, if it did before.
  pub evmap_io_add-IsWatched :
      (fd : Option ℕ) (e : ℕ)
      → ((g : ℕ) → fd ≡ some g → g < 2 ^ 27)
      → IsWatched evs (evmap_io_add env evs m fd e).0
  evmap_io_add-IsWatched fd e small g =
      let d = evmap_io_add-Added env evs m v fd e small in
      evmap_io_add-IsCounted env evs m counted fd e g ∙ interest_of-waited_for evs _ g d.valid

  -- After evmap_io_del_ of an event that waits on the descriptor, on a map whose counts are right, the
  -- backend watches each descriptor for exactly what the events that are left in the map wait for on
  -- it, if it did before and accepts every deletion.
  pub evmap_io_del-IsWatched :
      (fd e : ℕ)
      → occurs e (io_waiting m fd) ≡ true
      → ((calls : List (Call × Bool)) (f : ℕ) (old gone : Interest)
          → env.accepts calls (Call.del f old gone) ≡ true)
      → IsWatched evs (evmap_io_del env evs m (some fd) e).0
  evmap_io_del-IsWatched fd e there ok g =
      let d = evmap_io_del-Deleted env evs m v fd e there in
      evmap_io_del-IsCounted env evs m counted (some fd) e ok g
      ∙ interest_of-waited_for evs _ g d.valid
