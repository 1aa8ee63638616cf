-- ===== src/Tagging/Codec.antt =====
-- How event_tagging.c writes tags and integers as bytes, and reads them. Masks and shifts of bytes
-- are written as remainders and quotients.
use libevent.Common.{
  ℕ, zero, suc, ◌+◌, ◌-◌, ◌*◌, ◌/◌, ◌%◌, ◌^◌, ◌&&◌, ◌||◌, Option, none, some, List, [], ◌∷◌, ◌==◌,
  ltb, leb, if◌then◌else◌, length, take, set,
}

-- data[i], for an index inside.
abbrev pub at : List ℕ → ℕ → ℕ
at [] i = 0
at (x ∷ xs) zero = x
at (x ∷ xs) (suc i) = at xs i

-- The nibble at `off`: the low one of its byte where `off` is odd, and else the high one.
unfoldable pub nibble : List ℕ → ℕ → ℕ
nibble bytes off = if off % 2 == 1 then at bytes (off / 2) % 16 else at bytes (off / 2) / 16

-- The assignments of ENCODE_INT_INTERNAL to data[off/2].
unfoldable pub write_nibble : List ℕ → ℕ → ℕ → List ℕ
write_nibble bytes off v = set bytes (off / 2) (
    if off % 2 == 1
    then at bytes (off / 2) / 16 * 16 + v % 16
    else at bytes (off / 2) % 16 + v % 16 * 16)

-- The loop of ENCODE_INT_INTERNAL, on fuel: the bytes, and `off` at the end.
unfoldable pub write_nibbles : ℕ → List ℕ → ℕ → ℕ → List ℕ × ℕ
write_nibbles zero bytes off number = (bytes, off)
write_nibbles (suc fuel) bytes off number =
    let rest = write_nibbles fuel (write_nibble bytes off number) (off + 1) (number / 16) in
    if number == 0 then (bytes, off) else rest

-- ENCODE_INT_INTERNAL, into bytes that are all zero, with fuel for so many nibbles.
unfoldable pub encode_int_internal : ℕ → List ℕ → ℕ → List ℕ
encode_int_internal fuel zeros number =
    let (bytes, off) = write_nibbles fuel zeros 1 number in
    take ((off + 1) / 2) (write_nibble bytes 0 (if ltb 2 off then off - 2 else 0))

abbrev pub zeros_5 : List ℕ
zeros_5 = 0 ∷ 0 ∷ 0 ∷ 0 ∷ 0 ∷ []

abbrev pub zeros_9 : List ℕ
zeros_9 = 0 ∷ 0 ∷ 0 ∷ 0 ∷ zeros_5

-- encode_int_internal
unfoldable pub encode_int : ℕ → List ℕ
encode_int number = encode_int_internal 8 zeros_5 number

-- encode_int64_internal
unfoldable pub encode_int64 : ℕ → List ℕ
encode_int64 number = encode_int_internal 16 zeros_9 number

-- The loop of DECODE_INT_INTERNAL.
unfoldable pub read_nibbles : List ℕ → ℕ → ℕ → ℕ
read_nibbles bytes zero number = number
read_nibbles bytes (suc nibbles) number =
    read_nibbles bytes nibbles (number * 16 + nibble bytes (suc nibbles))

-- DECODE_INT_INTERNAL on the bytes from the offset on: the number and its length.
unfoldable pub decode_int_internal : ℕ → List ℕ → Option (ℕ × ℕ)
decode_int_internal maxnibbles bytes =
    let nibbles = at bytes 0 / 16 % 16 + 1 in
    if length bytes == 0
    then none
    else if ltb maxnibbles nibbles || ltb (length bytes) (nibbles / 2 + 1)
    then none
    else some (read_nibbles bytes nibbles 0 % 16 ^ maxnibbles, nibbles / 2 + 1)

-- decode_int_internal
unfoldable pub decode_int : List ℕ → Option (ℕ × ℕ)
decode_int bytes = decode_int_internal 8 bytes

-- decode_int64_internal
unfoldable pub decode_int64 : List ℕ → Option (ℕ × ℕ)
decode_int64 bytes = decode_int_internal 16 bytes

-- The loop of evtag_encode_tag, on fuel: a 32-bit tag has five groups of seven bits at most.
unfoldable pub tag_groups : ℕ → ℕ → List ℕ
tag_groups zero tag = []
tag_groups (suc fuel) tag =
    let rest = tag_groups fuel (tag / 128) in
    if tag / 128 == 0 then tag % 128 ∷ [] else (tag % 128 + 128) ∷ rest

-- evtag_encode_tag
unfoldable pub encode_tag : ℕ → List ℕ
encode_tag tag = tag_groups 5 tag

-- The loop of decode_tag_internal, where `weight` is 2 to the `shift`: the tag and its length.
unfoldable pub read_groups : List ℕ → ℕ → ℕ → ℕ → Option (ℕ × ℕ)
read_groups [] weight number count = none
read_groups (lower ∷ bytes) weight number count =
    let rest = read_groups bytes (weight * 128) (number + lower % 128 * weight) (count + 1) in
    if leb (2 ^ 28) weight && (ltb (2 ^ 28) weight || ltb 15 (lower % 128))
    then none
    else if ltb lower 128
    then some (number + lower % 128 * weight, count + 1)
    else rest

-- decode_tag_internal, on the bytes of the buffer.
unfoldable pub decode_tag : List ℕ → Option (ℕ × ℕ)
decode_tag bytes = read_groups bytes 1 0 0
