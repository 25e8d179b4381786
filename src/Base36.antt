-- ===== src/Base36.antt =====
-- src/couchbase/base36.c: numbers as text in base 36, and CAS values in that form. The functions
-- here are the file's; `Base36/Bounds` and `Base36/RoundTrip` hold the theorems about them.
pub mod RoundTrip
pub mod Bounds
use php_couchbase.Base.{
  ℕ, zero, suc, ◌+◌, ◌-◌, ◌*◌, ◌/◌, ◌%◌, ◌^◌, List, [], ◌∷◌, Option, none, some, ◌&&◌, ◌||◌, Bytes,
  codes, get_or, leb, ◌==◌, if◌then◌else◌,
}

abbrev pub u64_mod : ℕ
u64_mod = 2 ^ 64

-- The value of one character, `none` where the loop says `continue`.
unfoldable pub digit_value : ℕ → Option ℕ
digit_value c =
    if leb b'0' c && leb c b'9'
    then some (c - b'0')
    else if leb b'A' c && leb c b'Z'
    then some (c - (b'A' - 10))
    else if leb b'a' c && leb c b'z'
    then some (c - (b'a' - 10))
    else none

abbrev next_num : ℕ → Option ℕ → ℕ
next_num num none = num
next_num num (some c) = (num * 36 + c) % u64_mod

-- The `for` loop of pcbc_base36_decode_str, over the characters that it has not read.
decode_loop : Bytes → ℕ → ℕ
decode_loop [] num = num
decode_loop (c ∷ s) num = decode_loop s (next_num num (digit_value c))

-- pcbc_base36_decode_str
unfoldable pub decode_str : Bytes → ℕ
unfolding decode_loop digit_value
decode_str str = decode_loop str 0

abbrev digits : Bytes
digits = codes "0123456789abcdefghijklmnopqrstuvwxyz"

digit : ℕ → ℕ
digit i = get_or digits i 0

-- The `do` loop of pcbc_base36_encode_str: `ptr` is the offset of the pointer in `buf`, and `out`
-- the text from there to the terminator. The test `ptr > buf` keeps the loop from offset 0.
encode_loop : ℕ → ℕ → Bytes → Bytes
encode_loop zero num out = out
encode_loop (suc ptr) num out =
    let rest = encode_loop ptr (num / 36) (digit (num % 36) ∷ out) in
    if ptr == 0 || num / 36 == 0 then digit (num % 36) ∷ out else rest

-- pcbc_base36_encode_str: `buf` has 14 bytes, and the last holds the terminator.
unfoldable pub encode_str : ℕ → Bytes
unfolding encode_loop digit
encode_str num = encode_loop 13 num []
