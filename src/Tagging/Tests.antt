-- ===== src/Tagging/Tests.antt =====
-- The theorems on tagged data at concrete ones.
use libevent.Common.{
  ℕ, List, true, false, take, drop, ◌^◌, ◌≤◌, ◌<◌, ◌≡◌, ◌++◌, some, [], ◌∷◌, refl, arith, length,
}
use libevent.Tagging.Codec.{
  decode_tag, encode_tag, decode_int, encode_int, read_groups, tag_groups, encode_int_internal,
  write_nibbles, write_nibble,
}
use libevent.Buffer.Defs.Chain.{Env, content}
use libevent.Buffer.Defs.State.{Evbuffer}
use libevent.Buffer.Invariant.{IsBuffer, bytes_of}
use libevent.Tagging.Calls.{evtag_unmarshal_header}
use libevent.Tagging.Numbers.{Yields}
use libevent.Tagging.Marshal.{header, evtag_unmarshal_header-Yields}
use libevent.Tagging.Tags.{decode_tag-encode_tag, decode_tag_bounds}
use libevent.Tagging.Ints.{decode_int-encode_int}

decode_tag-encode_tag_example :
    decode_tag (encode_tag 0xabcdef01 ++ 1 ∷ 2 ∷ [])
    ≡ some (0xabcdef01, length (encode_tag 0xabcdef01))
decode_tag-encode_tag_example = decode_tag-encode_tag 0xabcdef01 (1 ∷ 2 ∷ []) (omega arith)

decoded : decode_tag (0x80 ∷ 1 ∷ 9 ∷ []) ≡ some (128, 2)
unfolding decode_tag read_groups
decoded = refl

decode_tag_bounds_example : (128 < 2 ^ 32) × (0 < 2) × (2 ≤ 3) × (2 ≤ 5)
decode_tag_bounds_example = decode_tag_bounds (0x80 ∷ 1 ∷ 9 ∷ []) 128 2 decoded

decode_int-encode_int_example :
    (decode_int (encode_int 0xbef ++ 7 ∷ []) ≡ some (0xbef, length (encode_int 0xbef)))
    × (length (encode_int 0xbef) ≤ 5)
decode_int-encode_int_example = decode_int-encode_int 0xbef (7 ∷ []) (omega arith)

-- Two nibbles stand behind the lowest, f, which shares its byte with their number.
encoded : encode_int 0xbef ≡ 0x2f ∷ 0xeb ∷ []
unfolding encode_int encode_int_internal write_nibbles write_nibble
encoded = refl

-- A buffer with the tag 300, a payload of two bytes and one byte more.
abbrev tagged_bytes : List ℕ
tagged_bytes = 0xac ∷ 2 ∷ 2 ∷ 9 ∷ 8 ∷ 7 ∷ []

abbrev received : Evbuffer
received = record {
  chains =
      record { buffer_len = 4; misalign = 1; bytes = take 3 tagged_bytes; immutable = true }
      ∷ record { buffer_len = 464; misalign = 0; bytes = drop 3 tagged_bytes; immutable = false }
      ∷ [];
  last_with_data = 1;
  total_len = 6;
  n_add_for_cb = 0;
  n_del_for_cb = 0;
  freeze_start = false;
  freeze_end = false;
  deferred_cbs = false;
  callbacks = [];
  deferred = false;
  calls = [];
  fine = true;
}

received-IsBuffer : IsBuffer received
unfolding content
received-IsBuffer = record {
  total = refl;
  small = omega arith;
  placed = omega arith;
  settled = refl;
  sound = (
    record { inside = omega arith; small = omega arith; writable = λ h. omega arith },
    (record { inside = omega arith; small = omega arith; writable = λ h. omega arith }, tt),
  );
  fine = refl;
}

received-header : bytes_of received ≡ header 300 2 (9 ∷ 8 ∷ 7 ∷ [])
unfolding content encode_tag tag_groups encode_int encode_int_internal write_nibbles write_nibble
received-header = refl

abbrev plenty : Env
plenty = record { malloc_ok = λ n. true }

evtag_unmarshal_header-Yields_example :
    Yields plenty (300, 2) (9 ∷ 8 ∷ 7 ∷ []) (evtag_unmarshal_header plenty received)
evtag_unmarshal_header-Yields_example =
    evtag_unmarshal_header-Yields plenty received received-IsBuffer refl (omega arith) 300 2
      (9 ∷ 8 ∷ 7 ∷ []) received-header (omega arith) (omega arith) (omega arith)
