-- ===== src/Buffer/Invariant.antt =====
-- What holds of an evbuffer between the calls of its functions, and the helpers that keep it.
use libevent.Common.{
  ℕ, zero, suc, ◌+◌, ◌-◌, ◌^◌, ◌≤◌, ◌<◌, ◌≡◌, refl, sym, ap, ◌∙◌, ◌++◌, append-nil, Bool, true,
  false, List, [], ◌∷◌, arith, length, length-append, drop, drop_all, drop-append, drop-nil,
  get_elem?-lt, if◌then◌else◌, get_elem?, is_some, nil_of_length, Bool-cases, ◌==◌, inl, inr,
}
use native.Mathlib.Decide.{ℕ_discrete}
use libevent.Buffer.Defs.Chain.{Chain, off, content, trimmed, plus_size}
use libevent.Buffer.Defs.State.{
  Evbuffer, expect, chain_insert, run_callbacks, invoke_callbacks, evbuffer_new,
}
use libevent.Buffer.Chains.{
  IsChain, AllChains, Trimmed, trimmed-Trimmed, AllChains-trimmed, AllChains-append, content-append,
  IsNew,
}

-- The bytes of a buffer.
abbrev pub bytes_of : Evbuffer → List ℕ
bytes_of buf = content buf.chains

pub record IsBuffer (buf : Evbuffer) : Type 0 where
  pub total : buf.total_len ≡ length (bytes_of buf)
  pub small : buf.total_len < 2 ^ 64
  pub placed : buf.last_with_data ≤ length buf.chains - 1
  pub settled : content (drop (suc buf.last_with_data) buf.chains) ≡ []
  pub sound : AllChains buf.chains
  pub fine : buf.fine ≡ true

-- The two differ in what is for the callbacks at most.
pub record SameBytes (b c : Evbuffer) : Type 0 where
  pub chains : c.chains ≡ b.chains
  pub last_with_data : c.last_with_data ≡ b.last_with_data
  pub total_len : c.total_len ≡ b.total_len
  pub freeze_start : c.freeze_start ≡ b.freeze_start
  pub freeze_end : c.freeze_end ≡ b.freeze_end
  pub fine : c.fine ≡ b.fine

pub IsBuffer-same : {b c : Evbuffer} → SameBytes b c → IsBuffer b → IsBuffer c
IsBuffer-same {b} {c} s v = record {
  total = s.total_len ∙ v.total ∙ ap (λ cs. length (content cs)) (sym s.chains);
  small = omega (arith, s.total_len, v.small);
  placed = rw (s.last_with_data, s.chains) v.placed;
  settled = rw (s.last_with_data, s.chains) v.settled;
  sound = rw s.chains v.sound;
  fine = s.fine ∙ v.fine;
}

pub added-same : (b : Evbuffer) (n : ℕ) → SameBytes b (record b { n_add_for_cb = n })
added-same b n = record {
  chains = refl;
  last_with_data = refl;
  total_len = refl;
  freeze_start = refl;
  freeze_end = refl;
  fine = refl;
}

pub deleted-same : (b : Evbuffer) (n : ℕ) → SameBytes b (record b { n_del_for_cb = n })
deleted-same b n = record {
  chains = refl;
  last_with_data = refl;
  total_len = refl;
  freeze_start = refl;
  freeze_end = refl;
  fine = refl;
}

pub run_callbacks-same : (b : Evbuffer) (d : Bool) → SameBytes b (run_callbacks b d)
unfolding run_callbacks
run_callbacks-same b d = ground arith

pub invoke_callbacks-same : (b : Evbuffer) → SameBytes b (invoke_callbacks b)
unfolding invoke_callbacks run_callbacks
invoke_callbacks-same b = ground arith

pub evbuffer_new-IsBuffer : IsBuffer evbuffer_new
unfolding evbuffer_new content
evbuffer_new-IsBuffer = record {
  total = refl;
  small = omega arith;
  placed = omega arith;
  settled = refl;
  sound = tt;
  fine = refl;
}

-- An assertion that holds changes nothing.
pub expect-same : (b : Evbuffer) (test : Bool) → test ≡ true → SameBytes b (expect test b)
unfolding expect
expect-same b test h = ground arith

-- A buffer with more bytes, which have been counted.
pub grown-IsBuffer :
    (b out : Evbuffer) (added : List ℕ)
    → IsBuffer b
    → b.total_len + length added < 2 ^ 64
    → out.total_len ≡ plus_size b.total_len (length added)
    → length (bytes_of out) ≡ length (bytes_of b) + length added
    → out.last_with_data ≤ length out.chains - 1
    → content (drop (suc out.last_with_data) out.chains) ≡ []
    → AllChains out.chains
    → out.fine ≡ true
    → IsBuffer out
grown-IsBuffer b out added v h counted same placed settled sound fine = record {
  total = omega (arith, v.total, counted, same);
  small = omega (arith, counted);
  placed = placed;
  settled = settled;
  sound = sound;
  fine = fine;
}

-- What evbuffer_chain_insert promises: the bytes of the new chain come last.
pub record Inserted (b : Evbuffer) (c : Chain) (out : Evbuffer) : Type 0 where
  pub valid : IsBuffer out
  pub same : bytes_of out ≡ bytes_of b ++ c.bytes

content-only : (c : Chain) → content (c ∷ []) ≡ c.bytes
unfolding content
content-only c = append-nil c.bytes

drop-only : (k : ℕ) (c : Chain) → off c ≡ 0 → content (drop k (c ∷ [])) ≡ []
unfolding content
drop-only zero c z = rw (nil_of_length c.bytes z) refl
drop-only (suc k) c z = rw (drop-nil {A = Chain} k) refl

module _ (b : Evbuffer) (c : Chain) (v : IsBuffer b) (w : IsChain c)
    (h : b.total_len + off c < 2 ^ 64) where
  module _ (here : b.last_with_data < length b.chains) where
    abbrev kept : List Chain
    kept = trimmed b.last_with_data b.chains

    kept-Trimmed : Trimmed b.last_with_data b.chains kept
    kept-Trimmed = trimmed-Trimmed b.last_with_data b.chains here v.settled

    kept_sound : AllChains kept
    kept_sound = AllChains-trimmed b.last_with_data b.chains v.sound

    kept-same : content (kept ++ c ∷ []) ≡ bytes_of b ++ c.bytes
    kept-same = content-append kept (c ∷ []) ∙ rw (content-only c, kept-Trimmed.same) refl

    kept-settled :
        content (drop (suc (if off c == 0 then b.last_with_data else length kept)) (kept ++ c ∷ []))
        ≡ []
    unfolding content
    kept-settled = elim (ℕ_discrete (off c) 0) [
      | yes z ↦
          rw
            (
              z,
              drop-append (suc b.last_with_data) kept (c ∷ []),
              content-append (drop (suc b.last_with_data) kept)
                  (drop (suc b.last_with_data - length kept) (c ∷ [])),
              kept-Trimmed.settled,
            )
            (drop-only (suc b.last_with_data - length kept) c z)
      | no ne ↦
          let f : (off c == 0) ≡ false = ground arith in
          rw
            (
              f,
              drop_all (suc (length kept)) (kept ++ c ∷ [])
                  (omega (arith, length-append kept (c ∷ []))),
            )
            refl
    ]

    behind-Inserted :
        (out : Evbuffer)
        → out.chains ≡ kept ++ c ∷ []
        → out.last_with_data ≡ (if off c == 0 then b.last_with_data else length kept)
        → out.total_len ≡ plus_size b.total_len (off c)
        → out.fine ≡ true
        → Inserted b c out
    behind-Inserted out chains last counted fine =
        let same : bytes_of out ≡ bytes_of b ++ c.bytes = ap content chains ∙ kept-same in
        let long = ap (length {A = Chain}) chains ∙ length-append kept (c ∷ []) in
        let more = ap (length {A = ℕ}) same ∙ length-append (bytes_of b) c.bytes in
        record {
          valid =
              grown-IsBuffer b out c.bytes v h counted more
                (ground (arith, last, long, kept-Trimmed.longer)) (rw (last, chains) kept-settled)
                (rw chains (AllChains-append kept (c ∷ []) kept_sound (w, tt))) fine;
          same = same;
        }

  nothing-Inserted :
      (out : Evbuffer)
      → length b.chains ≤ b.last_with_data
      → out.chains ≡ c ∷ []
      → out.last_with_data ≡ b.last_with_data
      → out.total_len ≡ plus_size b.total_len (off c)
      → out.fine ≡ true
      → Inserted b c out
  unfolding content
  nothing-Inserted out past chains last counted fine =
      let was : b.chains ≡ [] = nil_of_length b.chains (omega (arith, v.placed)) in
      let zero_last : out.last_with_data ≡ 0 = omega (arith, v.placed, last) in
      let old : bytes_of b ≡ [] = ap content was in
      let same : bytes_of out ≡ bytes_of b ++ c.bytes =
        ap content chains ∙ content-only c ∙ ap (λ xs. xs ++ c.bytes) (sym old) in
      let more = ap (length {A = ℕ}) same ∙ length-append (bytes_of b) c.bytes in
      record {
        valid =
            grown-IsBuffer b out c.bytes v h counted more (omega (arith, zero_last))
              (rw (zero_last, chains) refl) (rw chains (w, tt)) fine;
        same = same;
      }

  pub chain_insert-Inserted : Inserted b c (chain_insert b c)
  unfolding chain_insert
  chain_insert-Inserted = elim (Bool-cases (is_some (get_elem? b.chains b.last_with_data))) [
    | inl e ↦
        let here : b.last_with_data < length b.chains =
          ground (arith, get_elem?-lt b.chains b.last_with_data) in
        let only = (kept-Trimmed here).only_empty in
        behind-Inserted here (chain_insert b c) (rw e refl) (rw e refl) (rw e refl)
          (rw (e, v.fine, only) refl)
    | inr e ↦
        let past : length b.chains ≤ b.last_with_data =
          ground (arith, get_elem?-lt b.chains b.last_with_data) in
        nothing-Inserted (chain_insert b c) past (rw e refl) (rw e refl) (rw e refl)
          (ground (arith, e, v.fine, v.placed))
  ]

-- A buffer with no chain gets one, which is new.
pub record First (b : Evbuffer) (c : Chain) (out : Evbuffer) : Type 0 where
  pub valid : IsBuffer out
  pub chains : out.chains ≡ c ∷ []
  pub last : out.last_with_data ≡ 0
  pub same : bytes_of out ≡ bytes_of b
  pub total : out.total_len ≡ b.total_len
  pub freeze_start : out.freeze_start ≡ b.freeze_start
  pub freeze_end : out.freeze_end ≡ b.freeze_end

pub chain_insert-First :
    (b : Evbuffer) (c : Chain) (size : ℕ)
    → IsBuffer b
    → b.chains ≡ []
    → IsNew size c
    → First b c (chain_insert b c)
unfolding chain_insert
chain_insert-First b c size v nothing new =
    let none_yet : off c ≡ 0 = ap (length {A = ℕ}) new.empty in
    let w : IsChain c = record {
      inside = omega (arith, none_yet, new.start);
      small = omega (arith, new.bound);
      writable = λ _. new.bound;
    } in
    let ins = chain_insert-Inserted b c v w (omega (arith, none_yet, v.small)) in
    let same = ins.same ∙ ap (λ xs. bytes_of b ++ xs) new.empty ∙ append-nil (bytes_of b) in
    let z : b.last_with_data ≡ 0 = ground (arith, v.placed, nothing) in
    record {
      valid = ins.valid;
      chains = rw nothing refl;
      last = rw (nothing, z) refl;
      same = same;
      total = ins.valid.total ∙ ap (length {A = ℕ}) same ∙ sym v.total;
      freeze_start = rw nothing refl;
      freeze_end = rw nothing refl;
    }
