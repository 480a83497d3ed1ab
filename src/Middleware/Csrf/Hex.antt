-- ===== src/Middleware/Csrf/Hex.antt =====
-- encoding/hex as far as the tokens need it.
use go_performance_starter.Prelude.{
  ℕ, ◌*◌, ◌/◌, ◌%◌, ◌<◌, ◌≡◌, refl, ap, true, some, List, [], ◌∷◌, length, All, arith,
}
use go_performance_starter.Middleware.Csrf.{
  hex_digit, digit_value, encode_to_string, decode_string, is_valid_token_format, csrf_token_bytes,
}

digit_value-hex_digit : (v : ℕ) → v < 16 → digit_value (hex_digit v) ≡ some v
unfolding digit_value hex_digit
digit_value-hex_digit v h = ground arith

abbrev pub IsBytes : List ℕ → Type 0
IsBytes buf = All (λ v. v < 256) buf

-- Decoding what was encoded gives back every sequence of bytes.
pub decode_string-encode_to_string :
    (buf : List ℕ) → IsBytes buf → decode_string (encode_to_string buf) ≡ some buf
unfolding decode_string encode_to_string
decode_string-encode_to_string [] h = refl
decode_string-encode_to_string (v ∷ buf) (small, h) =
    rw
      (
        digit_value-hex_digit (v / 16) (omega arith),
        digit_value-hex_digit (v % 16) (omega arith),
        decode_string-encode_to_string buf h,
      )
      (ap (λ b. some (b ∷ buf)) (omega arith))

length-encode_to_string : (buf : List ℕ) → length (encode_to_string buf) ≡ length buf * 2
unfolding encode_to_string
length-encode_to_string [] = refl
length-encode_to_string (v ∷ buf) = ground (arith, length-encode_to_string buf)

-- A token that was made from 32 random bytes has the format of a token.
pub is_valid_token_format-encode :
    (buf : List ℕ)
    → IsBytes buf
    → length buf ≡ csrf_token_bytes
    → is_valid_token_format (encode_to_string buf) ≡ true
unfolding is_valid_token_format
is_valid_token_format-encode buf h n =
    rw (length-encode_to_string buf, n, decode_string-encode_to_string buf h) refl
