-- ===== src/Base36/RoundTrip.antt =====
-- base36.c: decoding undoes encoding.
use native.Mathlib.Nat.{pow-suc}
use php_couchbase.Base.{
  ℕ, zero, suc, ◌/◌, ◌%◌, ◌^◌, ◌<◌, ◌≡◌, refl, ap, subst, ◌∙◌, inl, inr, [], ◌∷◌, if◌then◌else◌,
  some, arith, Bytes, ◌==◌, Bool-cases,
}
use php_couchbase.Base36.{
  u64_mod, digit, digit_value, next_num, decode_loop, decode_str, encode_loop, encode_str,
}

digit_value-digit : (i : ℕ) → i < 36 → digit_value (digit i) ≡ some i
unfolding digit_value digit
digit_value-digit i h = ground arith

-- One round of the encoder is undone by one round of the decoder.
next_num-digit :
    (num : ℕ) → num < u64_mod → next_num (num / 36) (digit_value (digit (num % 36))) ≡ num
next_num-digit num h = rw (digit_value-digit (num % 36) (omega arith)) (omega arith)

decode_loop-digit :
    (num : ℕ) (out : Bytes)
    → num < u64_mod
    → decode_loop (digit (num % 36) ∷ out) (num / 36) ≡ decode_loop out num
unfolding decode_loop
decode_loop-digit num out h = ap (decode_loop out) (next_num-digit num h)

encode_loop_last : (num : ℕ) (out : Bytes) → encode_loop 1 num out ≡ digit (num % 36) ∷ out
unfolding encode_loop
encode_loop_last num out = refl

encode_loop_step :
    (ptr num : ℕ) (out : Bytes)
    → encode_loop (suc (suc ptr)) num out ≡ (
        if num / 36 == 0
        then digit (num % 36) ∷ out
        else encode_loop (suc ptr) (num / 36) (digit (num % 36) ∷ out))
unfolding encode_loop
encode_loop_step ptr num out = ground arith

decode_loop_end : (num : ℕ) → decode_loop [] num ≡ num
unfolding decode_loop
decode_loop_end num = refl

decode_loop-zero :
    (num : ℕ) (out : Bytes)
    → num / 36 ≡ 0
    → num < u64_mod
    → decode_loop (digit (num % 36) ∷ out) 0 ≡ decode_loop out num
decode_loop-zero num out e b =
    subst (λ z. decode_loop (digit (num % 36) ∷ out) z ≡ decode_loop out num) e
      (decode_loop-digit num out b)

decode-encode_loop :
    (ptr num : ℕ) (out : Bytes)
    → num < 36 ^ suc ptr
    → num < u64_mod
    → decode_loop (encode_loop (suc ptr) num out) 0 ≡ decode_loop out num
decode-encode_loop zero num out h b =
    rw (encode_loop_last num out) (decode_loop-zero num out (omega arith) b)
decode-encode_loop (suc ptr) num out h b = elim (Bool-cases (num / 36 == 0)) [
  | inl done ↦ rw (encode_loop_step ptr num out, done) (decode_loop-zero num out (ground arith) b)
  | inr more ↦
      rw (encode_loop_step ptr num out, more)
        (decode-encode_loop ptr (num / 36) (digit (num % 36) ∷ out)
            (omega (arith, pow-suc 36 (suc ptr))) (omega arith)
          ∙ decode_loop-digit num out b)
]

-- The text that pcbc_base36_encode_str makes of a 64-bit number is decoded to that number.
pub decode_str-encode_str : (num : ℕ) → num < u64_mod → decode_str (encode_str num) ≡ num
unfolding decode_str encode_str
decode_str-encode_str num h = decode-encode_loop 12 num [] (omega arith) h ∙ decode_loop_end num
