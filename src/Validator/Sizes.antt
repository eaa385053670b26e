-- ===== src/Validator/Sizes.antt =====
-- The test of an encoded length, against the length that was encoded.
use competition_api.Prelude.{ℕ, ◌+◌, ◌*◌, ◌/◌, ◌≤◌, ◌≡◌, ◌↔◌, true, arith}
use competition_api.Validator.{encoded_len, validate_base64_len}

-- The size, a multiple of three, up to which everything is let through.
abbrev pub rounded_up : ℕ → ℕ
rounded_up length = (length + 2) / 3 * 3

-- Data of `n` bytes pass the test of their encoded length for the limit `length` exactly if they have
-- at most `length` bytes, rounded up to a multiple of three.
pub validate_base64_len-encoded_len :
    (n length : ℕ) → (validate_base64_len (encoded_len n) length ≡ true) ↔ (n ≤ rounded_up length)
unfolding validate_base64_len
validate_base64_len-encoded_len n length = ground arith
