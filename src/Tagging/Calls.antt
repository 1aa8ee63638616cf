-- ===== src/Tagging/Calls.antt =====
-- The functions of event_tagging.c on buffers. A length or an integer that the C code hands back
-- through a pointer is part of the result, which is `none` where the code returns -1.
use libevent.Common.{
  ℕ, ◌+◌, ◌-◌, ◌/◌, ◌%◌, ◌^◌, ◌||◌, Bool, true, false, Option, none, some, List, [], ◌∷◌, ◌==◌, ltb,
  leb, if◌then◌else◌, length, take, drop,
}
use libevent.Buffer.Defs.Chain.{Chain, Env}
use libevent.Buffer.Defs.State.{Evbuffer, expect, evbuffer_get_length}
use libevent.Buffer.Defs.Add.{evbuffer_add}
use libevent.Buffer.Defs.Take.{evbuffer_drain, evbuffer_pullup}
use libevent.Tagging.Codec.{at, decode_tag, read_nibbles, encode_tag, encode_int, encode_int64}

-- What evbuffer_pullup points to.
unfoldable pub first_bytes : List Chain → List ℕ
first_bytes [] = []
first_bytes (c ∷ cs) = c.bytes

-- evtag_encode_tag, evtag_encode_int and evtag_encode_int64
unfoldable pub evtag_encode_tag : Env → Evbuffer → ℕ → Evbuffer
evtag_encode_tag env evbuf tag = (evbuffer_add env evbuf (encode_tag tag)).0

unfoldable pub evtag_encode_int : Env → Evbuffer → ℕ → Evbuffer
evtag_encode_int env evbuf number = (evbuffer_add env evbuf (encode_int number)).0

unfoldable pub evtag_encode_int64 : Env → Evbuffer → ℕ → Evbuffer
evtag_encode_int64 env evbuf number = (evbuffer_add env evbuf (encode_int64 number)).0

-- evtag_marshal
unfoldable pub evtag_marshal : Env → Evbuffer → ℕ → List ℕ → Evbuffer
unfolding evtag_encode_tag evtag_encode_int
evtag_marshal env evbuf tag bytes =
    let tagged = evtag_encode_tag env evbuf tag in
    let sized = evtag_encode_int env tagged (length bytes) in (evbuffer_add env sized bytes).0

-- evtag_marshal_int and evtag_marshal_int64
unfoldable pub evtag_marshal_int : Env → Evbuffer → ℕ → ℕ → Evbuffer
unfolding evtag_encode_tag evtag_encode_int
evtag_marshal_int env evbuf tag integer =
    let tagged = evtag_encode_tag env evbuf tag in
    let sized = evtag_encode_int env tagged (length (encode_int integer)) in
    (evbuffer_add env sized (encode_int integer)).0

unfoldable pub evtag_marshal_int64 : Env → Evbuffer → ℕ → ℕ → Evbuffer
unfolding evtag_encode_tag evtag_encode_int
evtag_marshal_int64 env evbuf tag integer =
    let tagged = evtag_encode_tag env evbuf tag in
    let sized = evtag_encode_int env tagged (length (encode_int64 integer)) in
    (evbuffer_add env sized (encode_int64 integer)).0

-- decode_tag_internal, with the tag and how many bytes it takes. A sixth byte, which the code may
-- read, does not count: it is refused whatever it is.
unfoldable pub decode_tag_internal : Env → Evbuffer → Bool → Evbuffer × Option (ℕ × ℕ)
unfolding evbuffer_get_length
decode_tag_internal env evbuf dodrain =
    let len = evbuffer_get_length evbuf in
    let size = if ltb len 5 then len else 5 in
    let (pulled, ok) = evbuffer_pullup env evbuf (some size) in
    if ok
    then elim (decode_tag (take size (first_bytes pulled.chains))) [
      | none ↦ (pulled, none)
      | some (tag, count) ↦
          (if dodrain then (evbuffer_drain pulled count).0 else pulled, some (tag, count))
    ]
    else (pulled, none)

-- evtag_decode_tag and evtag_peek
unfoldable pub evtag_decode_tag : Env → Evbuffer → Evbuffer × Option (ℕ × ℕ)
evtag_decode_tag env evbuf = decode_tag_internal env evbuf true

unfoldable pub evtag_peek : Env → Evbuffer → Evbuffer × Option (ℕ × ℕ)
evtag_peek env evbuf = decode_tag_internal env evbuf false

-- The rest of DECODE_INT_INTERNAL once the first byte of the number is there.
unfoldable pub decode_int_rest : Env → Evbuffer → ℕ → ℕ → ℕ → Evbuffer × Option (ℕ × ℕ)
decode_int_rest env evbuf maxnibbles offset nibbles =
    let len = nibbles / 2 + 1 in
    let (pulled, ok) = evbuffer_pullup env evbuf (some (offset + len)) in
    let bytes = take len (drop offset (first_bytes pulled.chains)) in
    if ltb maxnibbles nibbles || ltb (evbuf.total_len - offset) len
    then (evbuf, none)
    else if ok
    then (pulled, some (read_nibbles bytes nibbles 0 % 16 ^ maxnibbles, len))
    else (expect (offset == 0) pulled, none)

-- DECODE_INT_INTERNAL, with the number and its length. Where bytes cannot be brought together the
-- test of the pointer sees it only at the offset 0; elsewhere the code goes astray.
unfoldable pub decode_int_from : Env → Evbuffer → ℕ → ℕ → Evbuffer × Option (ℕ × ℕ)
unfolding decode_int_rest evbuffer_get_length
decode_int_from env evbuf maxnibbles offset =
    let (pulled, ok) = evbuffer_pullup env evbuf (some (offset + 1)) in
    if leb (evbuffer_get_length evbuf) offset
    then (evbuf, none)
    else if ok
    then decode_int_rest env pulled maxnibbles offset
        (at (drop offset (first_bytes pulled.chains)) 0 / 16 % 16 + 1)
    else (expect (offset == 0) pulled, none)

-- evtag_decode_int and evtag_decode_int64
unfoldable pub evtag_decode : Env → Evbuffer → ℕ → Evbuffer × Option ℕ
unfolding decode_int_from
evtag_decode env evbuf maxnibbles =
    let (read, res) = decode_int_from env evbuf maxnibbles 0 in
    elim res [
      | none ↦ (read, none)
      | some (number, len) ↦ ((evbuffer_drain read len).0, some number)
    ]

-- evtag_unmarshal_header, with the tag and the length of the payload.
unfoldable pub evtag_unmarshal_header : Env → Evbuffer → Evbuffer × Option (ℕ × ℕ)
unfolding decode_tag_internal evtag_decode evbuffer_get_length
evtag_unmarshal_header env evbuf =
    let (tagged, res) = decode_tag_internal env evbuf true in
    elim res [
      | none ↦ (tagged, none)
      | some (tag, count) ↦
          let (sized, res') = evtag_decode env tagged 8 in
          elim res' [
            | none ↦ (sized, none)
            | some len ↦
                if ltb (evbuffer_get_length sized) len
                then (sized, none)
                else (sized, some (tag, len))
          ]
    ]

-- evtag_consume
unfoldable pub evtag_consume : Env → Evbuffer → Evbuffer × Bool
unfolding evtag_unmarshal_header
evtag_consume env evbuf =
    let (read, res) = evtag_unmarshal_header env evbuf in
    elim res [ none ↦ (read, false) | some (tag, len) ↦ ((evbuffer_drain read len).0, true) ]
