-- ===== src/Base36/Bounds.antt =====
-- base36.c: the bounds of the decoded number and of the encoder's buffer, and what the decoder skips.
use php_couchbase.Base.{
  if_both, ℕ, zero, suc, ◌+◌, ◌/◌, ◌%◌, ◌<◌, ◌≤◌, ◌≡◌, Bool, true, ◌||◌, [], ◌∷◌, Option, none,
  some, arith, Bytes, All, length, ◌==◌, leb, ◌&&◌,
}
use php_couchbase.Base36.{
  u64_mod, digit, digit_value, next_num, decode_loop, decode_str, encode_loop, encode_str,
}

next_num-lt : (num : ℕ) (d : Option ℕ) → num < u64_mod → next_num num d < u64_mod
next_num-lt num none h = h
next_num-lt num (some c) h = omega arith

decode_loop-lt : (s : Bytes) (num : ℕ) → num < u64_mod → decode_loop s num < u64_mod
unfolding decode_loop
decode_loop-lt [] num h = h
decode_loop-lt (c ∷ s) num h =
    decode_loop-lt s (next_num num (digit_value c)) (next_num-lt num (digit_value c) h)

-- The decoder wraps: its result is a 64-bit number for every text.
pub decode_str-lt : (str : Bytes) → decode_str str < u64_mod
unfolding decode_str
decode_str-lt str = decode_loop-lt str 0 (omega arith)

-- The digits 0 to 9 and the small letters.
abbrev pub is_digit : ℕ → Bool
is_digit c = leb b'0' c && leb c b'9' || leb b'a' c && leb c b'z'

digit-is_digit : (i : ℕ) → i < 36 → is_digit (digit i) ≡ true
unfolding digit
digit-is_digit i h = ground arith

abbrev pub IsDigits : Bytes → Type 0
IsDigits = All (λ c. is_digit c ≡ true)

encode_loop-IsDigits :
    (ptr num : ℕ) (out : Bytes) → IsDigits out → IsDigits (encode_loop ptr num out)
unfolding encode_loop
encode_loop-IsDigits zero num out h = h
encode_loop-IsDigits (suc ptr) num out h =
    let d = digit-is_digit (num % 36) (omega arith) in
    if_both IsDigits (ptr == 0 || num / 36 == 0) (d, h)
      (encode_loop-IsDigits ptr (num / 36) (digit (num % 36) ∷ out) (d, h))

length-encode_loop :
    (ptr num : ℕ) (out : Bytes)
    → (length out ≤ length (encode_loop ptr num out))
      × (length (encode_loop ptr num out) ≤ ptr + length out)
unfolding encode_loop
length-encode_loop zero num out = omega arith
length-encode_loop (suc ptr) num out =
    ground (arith, length-encode_loop ptr (num / 36) (digit (num % 36) ∷ out))

length-encode_loop_pos : (ptr num : ℕ) (out : Bytes) → 0 < length (encode_loop (suc ptr) num out)
unfolding encode_loop
length-encode_loop_pos ptr num out =
    ground (arith, length-encode_loop ptr (num / 36) (digit (num % 36) ∷ out))

-- pcbc_base36_encode_str writes at least one and at most 13 characters, so that with the
-- terminator they fit the 14 bytes of `buf`, and each of them is a digit or a small letter.
pub encode_str_fits :
    (num : ℕ)
    → (0 < length (encode_str num)) × (length (encode_str num) ≤ 13) × IsDigits (encode_str num)
unfolding encode_str
encode_str_fits num = (
  length-encode_loop_pos 12 num [],
  omega (arith, length-encode_loop 13 num []),
  encode_loop-IsDigits 13 num [] tt,
)
