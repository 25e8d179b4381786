-- ===== src/Decimal.antt =====
-- Numbers as snprintf and smart_str_append_long print them.
use php_couchbase.Base.{
  ◌-◌, ◌^◌, ltb, ℕ, zero, suc, ◌+◌, ◌/◌, ◌%◌, ◌∷◌, [], Bytes, ◌==◌, if◌then◌else◌,
}

-- `%d` and `%llu` of a number of at most 20 digits.
decimal_loop : ℕ → ℕ → Bytes → Bytes
decimal_loop zero n out = out
decimal_loop (suc fuel) n out =
    let rest = decimal_loop fuel (n / 10) ((b'0' + n % 10) ∷ out) in
    if n / 10 == 0 then (b'0' + n % 10) ∷ out else rest

unfoldable pub decimal : ℕ → Bytes
unfolding decimal_loop
decimal n = decimal_loop 20 n []

-- `%ld` of a long, given as its 64-bit pattern.
unfoldable pub signed_decimal : ℕ → Bytes
unfolding decimal
signed_decimal n = if ltb n (2 ^ 63) then decimal n else b'-' ∷ decimal (2 ^ 64 - n)
