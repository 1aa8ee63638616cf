-- ===== src/Tagging/Reading.antt =====
-- Reading a tag from a buffer, and what comes behind it.
use libevent.Common.{
  ℕ, ◌^◌, ◌<◌, ◌≤◌, ◌≡◌, ◌⊎◌, inl, inr, refl, sym, ap, ◌∙◌, Bool, true, false, Option, none, some,
  [], ltb, if◌then◌else◌, take, drop, take_all, arith, Bool-cases, Option-cases, nil_of_length,
}
use libevent.Buffer.Defs.Chain.{Env, chain_new}
use libevent.Buffer.Defs.State.{Evbuffer, evbuffer_get_length}
use libevent.Buffer.Defs.Take.{evbuffer_drain, evbuffer_pullup}
use libevent.Buffer.Invariant.{IsBuffer, bytes_of}
use libevent.Buffer.PullInto.{Pulls}
use libevent.Buffer.Pullup.{evbuffer_pullup-Pulls}
use libevent.Buffer.Drain.{evbuffer_drain-Drains, evbuffer_drain-freeze}
use libevent.Tagging.Codec.{decode_tag, read_groups}
use libevent.Tagging.Calls.{first_bytes, decode_tag_internal}

-- Memory is not to be had for some small chain.
abbrev pub Denied : Env → Type 0
Denied env = (n : ℕ) × (n ≤ 16) × (chain_new env n ≡ none)

-- Where evbuffer_pullup points there are the first bytes.
pub pulled_bytes :
    (env : Env) (b : Evbuffer) (size : ℕ) (out : Evbuffer × Bool)
    → Pulls env b size out
    → out.1 ≡ true
    → take size (first_bytes out.0.chains) ≡ take size (bytes_of b)
unfolding first_bytes
pulled_bytes env b size out p ok =
    let (c, rest, is, fits, pre) = p.success ok in ap (λ cs. take size (first_bytes cs)) is ∙ pre

-- How many bytes a result says that were read.
abbrev pub count_of {ℓ} : {A : Type ℓ} → Option (A × ℕ) → ℕ
count_of none = 0
count_of (some (a, n)) = n

-- What a function that reads a tag or an integer promises of a buffer whose start is not frozen,
-- where `spec` is what the codec reads from the bytes: so many bytes go if `drains` says so.
pub record Reads (env : Env) (b : Evbuffer) (spec : Option (ℕ × ℕ)) (drains : Bool)
    (out : Evbuffer × Option (ℕ × ℕ)) : Type 0 where
  pub valid : IsBuffer out.0
  pub freeze_start : out.0.freeze_start ≡ b.freeze_start
  pub result : (out.1 ≡ spec) ⊎ ((out.1 ≡ none) × Denied env)
  pub same : bytes_of out.0 ≡ (if drains then drop (count_of out.1) (bytes_of b) else bytes_of b)

module _ (env : Env) (b : Evbuffer) (v : IsBuffer b) (thawed : b.freeze_start ≡ false)
    (small : b.total_len < 2 ^ 63) where
  abbrev size : ℕ
  size = if ltb b.total_len 5 then b.total_len else 5

  abbrev pulled : Evbuffer × Bool
  pulled = evbuffer_pullup env b (some size)

  pulled-Pulls : Pulls env b size pulled
  pulled-Pulls = evbuffer_pullup-Pulls env b (some size) v small

  take-size : take size (bytes_of b) ≡ take 5 (bytes_of b)
  take-size = elim (Bool-cases (ltb b.total_len 5)) [
    | inr enough ↦ rw enough refl
    | inl few ↦ rw few (
        take_all b.total_len (bytes_of b) (omega (arith, v.total))
        ∙ sym (take_all 5 (bytes_of b) (ground (arith, few, v.total))))
  ]

  -- The bytes that are looked at, once they stand together.
  seen : pulled.1 ≡ true → take size (first_bytes pulled.0.chains) ≡ take 5 (bytes_of b)
  seen ok = pulled_bytes env b size pulled pulled-Pulls ok ∙ take-size

  failed-Reads :
      (dodrain : Bool)
      → pulled.1 ≡ false
      → Reads env b (decode_tag (take 5 (bytes_of b))) dodrain (pulled.0, none)
  failed-Reads dodrain bad =
      let p = pulled-Pulls in
      record {
        valid = p.valid;
        freeze_start = p.freeze_start;
        result = elim (p.failure bad) [
          | inl z ↦
              let nothing : take 5 (bytes_of b) ≡ [] =
                ap (take 5) (nil_of_length (bytes_of b) (ground (arith, z, v.total))) in
              inl (sym (ap decode_tag nothing ∙ unfold decode_tag read_groups in refl))
          | inr (inl big) ↦ absurd (ground (arith, big))
          | inr (inr denied) ↦ inr (refl, (size, ground arith, denied))
        ];
        same = ground (arith, p.same);
      }

  -- What stays of decode_tag_internal once the bytes stand together.
  abbrev drained : ℕ → Bool → Evbuffer
  drained n dodrain = if dodrain then (evbuffer_drain pulled.0 n).0 else pulled.0

  some-Reads :
      (dodrain : Bool) (tag n : ℕ)
      → decode_tag (take 5 (bytes_of b)) ≡ some (tag, n)
      → Reads env b (decode_tag (take 5 (bytes_of b))) dodrain (drained n dodrain, some (tag, n))
  some-Reads false tag n e =
      let p = pulled-Pulls in
      record { valid = p.valid; freeze_start = p.freeze_start; result = inl (sym e); same = p.same }
  some-Reads true tag n e =
      let p = pulled-Pulls in
      let d = evbuffer_drain-Drains pulled.0 n p.valid in
      let went : (evbuffer_drain pulled.0 n).1 ≡ true =
        ground (arith, d.success, p.freeze_start, thawed) in
      record {
        valid = d.valid;
        freeze_start = evbuffer_drain-freeze pulled.0 n ∙ p.freeze_start;
        result = inl (sym e);
        same = d.same ∙ rw went (ap (drop n) p.same);
      }

  none-Reads :
      (dodrain : Bool)
      → decode_tag (take 5 (bytes_of b)) ≡ none
      → Reads env b (decode_tag (take 5 (bytes_of b))) dodrain (pulled.0, none)
  none-Reads dodrain e =
      let p = pulled-Pulls in
      record {
        valid = p.valid;
        freeze_start = p.freeze_start;
        result = inl (sym e);
        same = ground (arith, p.same);
      }

  -- decode_tag_internal on a right buffer whose start is not frozen: the buffer stays right, the
  -- result is what the codec reads from the first five bytes unless memory is not to be had, and
  -- exactly the bytes of the tag go, if they are to.
  pub decode_tag_internal-Reads :
      (dodrain : Bool)
      → Reads env b (decode_tag (take 5 (bytes_of b))) dodrain (decode_tag_internal env b dodrain)
  unfolding decode_tag_internal evbuffer_get_length
  decode_tag_internal-Reads dodrain = elim (Bool-cases pulled.1) [
    | inr bad ↦ simp bad (failed-Reads dodrain bad)
    | inl ok ↦
        let same = ap decode_tag (seen ok) in
        elim (Option-cases (decode_tag (take 5 (bytes_of b)))) [
          | inl nothing ↦ let e = same ∙ nothing in rw (ok, e) (none-Reads dodrain nothing)
          | inr ((tag, n), got) ↦ let e = same ∙ got in rw (ok, e) (some-Reads dodrain tag n got)
        ]
  ]
