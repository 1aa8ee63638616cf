-- ===== src/Tagging/Tags.antt =====
-- A tag comes back from its bytes.
use libevent.Common.{
  ℕ, ◌+◌, ◌*◌, ◌/◌, ◌%◌, ◌^◌, ◌<◌, ◌≤◌, ◌≡◌, ◌++◌, some, List, [], ◌∷◌, length, arith,
}
use libevent.Tagging.Codec.{tag_groups, encode_tag, read_groups, decode_tag}

-- What reading the groups of a tag gives, where bits have been read before.
abbrev ReadsBack : ℕ → ℕ → ℕ → Type 0
ReadsBack fuel weight bound =
    (tag number count : ℕ) (rest : List ℕ)
    → tag < bound
    → read_groups (tag_groups fuel tag ++ rest) weight number count
      ≡ some (number + tag * weight, count + length (tag_groups fuel tag))

last_group : ReadsBack 1 (2 ^ 28) 16
unfolding read_groups tag_groups
last_group tag number count rest h = ground arith

fourth_group : ReadsBack 2 (2 ^ 21) (16 * 2 ^ 7)
unfolding read_groups tag_groups
fourth_group tag number count rest h =
    ground
      (arith, last_group (tag / 128) (number + (tag % 128 + 128) % 128 * 2 ^ 21) (count + 1) rest)

third_group : ReadsBack 3 (2 ^ 14) (16 * 2 ^ 14)
unfolding read_groups tag_groups
third_group tag number count rest h =
    ground
      (arith, fourth_group (tag / 128) (number + (tag % 128 + 128) % 128 * 2 ^ 14) (count + 1) rest)

second_group : ReadsBack 4 (2 ^ 7) (16 * 2 ^ 21)
unfolding read_groups tag_groups
second_group tag number count rest h =
    ground
      (arith, third_group (tag / 128) (number + (tag % 128 + 128) % 128 * 2 ^ 7) (count + 1) rest)

first_group : ReadsBack 5 1 (2 ^ 32)
unfolding read_groups tag_groups
first_group tag number count rest h =
    ground (arith, second_group (tag / 128) (number + (tag % 128 + 128) % 128) (count + 1) rest)

-- Decoding the bytes of a 32-bit tag, whatever comes behind them, gives the tag and how many they
-- are.
pub decode_tag-encode_tag :
    (tag : ℕ) (rest : List ℕ)
    → tag < 2 ^ 32
    → decode_tag (encode_tag tag ++ rest) ≡ some (tag, length (encode_tag tag))
unfolding decode_tag encode_tag
decode_tag-encode_tag tag rest h = ground (arith, first_group tag 0 0 rest)

-- What a tag that is read from any bytes is, where `groups` groups may still come.
abbrev Bounded : ℕ → ℕ → Type 0
Bounded groups weight =
    (bytes : List ℕ) (number count tag n : ℕ)
    → number < weight
    → read_groups bytes weight number count ≡ some (tag, n)
    → (tag < 2 ^ 32) × (count < n) × (n ≤ count + length bytes) × (n ≤ count + groups)

no_group : Bounded 0 (2 ^ 35)
unfolding read_groups
no_group [] number count tag n h e = cc
no_group (x ∷ bytes) number count tag n h e = ground arith

one_group : Bounded 1 (2 ^ 28)
unfolding read_groups
one_group [] number count tag n h e = cc
one_group (x ∷ bytes) number count tag n h e =
    ground (arith, no_group bytes (number + x % 128 * 2 ^ 28) (count + 1) tag n)

two_groups : Bounded 2 (2 ^ 21)
unfolding read_groups
two_groups [] number count tag n h e = cc
two_groups (x ∷ bytes) number count tag n h e =
    ground (arith, one_group bytes (number + x % 128 * 2 ^ 21) (count + 1) tag n)

three_groups : Bounded 3 (2 ^ 14)
unfolding read_groups
three_groups [] number count tag n h e = cc
three_groups (x ∷ bytes) number count tag n h e =
    ground (arith, two_groups bytes (number + x % 128 * 2 ^ 14) (count + 1) tag n)

four_groups : Bounded 4 (2 ^ 7)
unfolding read_groups
four_groups [] number count tag n h e = cc
four_groups (x ∷ bytes) number count tag n h e =
    ground (arith, three_groups bytes (number + x % 128 * 2 ^ 7) (count + 1) tag n)

five_groups : Bounded 5 1
unfolding read_groups
five_groups [] number count tag n h e = cc
five_groups (x ∷ bytes) number count tag n h e =
    ground (arith, four_groups bytes (number + x % 128) (count + 1) tag n)

-- A tag that is decoded, from any bytes, fits 32 bits, and it has taken at least one of the bytes
-- and at most five.
pub decode_tag_bounds :
    (bytes : List ℕ) (tag n : ℕ)
    → decode_tag bytes ≡ some (tag, n)
    → (tag < 2 ^ 32) × (0 < n) × (n ≤ length bytes) × (n ≤ 5)
unfolding decode_tag
decode_tag_bounds bytes tag n e = omega (arith, five_groups bytes 0 0 tag n (omega arith) e)
