-- ===== src/Evmap/Space.antt =====
-- evmap_make_space.
use libevent.Common.{
  ℕ, zero, suc, ◌+◌, ◌*◌, ◌^◌, ◌≤◌, ◌<◌, ◌≡◌, ◌-◌, refl, false, arith, some, ◌==◌, if◌then◌else◌,
  Bool-cases, leb, inl, inr,
}
use libevent.Evmap.Defs.{Env, double_past, make_space, make_overflows}

double_past_grows :
    (fuel slot n : ℕ)
    → 0 < n
    → slot < n + fuel
    → (slot < double_past fuel slot n) × (n ≤ double_past fuel slot n)
unfolding double_past
double_past_grows zero slot n pos f = omega arith
double_past_grows (suc fuel) slot n pos f =
    ground (arith, double_past_grows fuel slot (n * 2) (omega arith) (omega arith))

-- Where evmap_make_space succeeds the map has an entry for the slot, and none is lost.
pub make_space_room :
    (env : Env) (nentries slot n : ℕ)
    → make_space env nentries slot ≡ some n
    → (slot < n) × (nentries ≤ n)
unfolding make_space
make_space_room env nentries slot n h =
    ground (arith, double_past_grows slot slot (if nentries == 0 then 32 else nentries))

double_past_least :
    (fuel slot n most : ℕ) → n ≤ most → slot * 2 ≤ most → double_past fuel slot n ≤ most
unfolding double_past
double_past_least zero slot n most small twice = small
double_past_least (suc fuel) slot n most small twice = elim (Bool-cases (leb n slot)) [
  | inl more ↦
      rw more (double_past_least fuel slot (n * 2) most (ground (arith, more, twice)) twice)
  | inr done ↦ rw done small
]

-- No int overflows for a slot below 2^27.
pub make_overflows_small :
    (nentries slot : ℕ) → slot < 2 ^ 27 → make_overflows nentries slot ≡ false
unfolding make_overflows
make_overflows_small nentries slot small = elim (Bool-cases (leb nentries slot)) [
  | inl more ↦
      let start = if nentries == 0 then 32 else nentries in
      let least =
        double_past_least slot slot start (2 ^ 28 - 1) (ground (arith, more, small))
          (omega (arith, small)) in
      ground (arith, least)
  | inr there ↦ rw there refl
]
