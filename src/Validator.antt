-- ===== src/Validator.antt =====
-- competition-api/internal/validator/b64.go: the sizes of submissions, checked before they are decoded.
pub mod Sizes
use competition_api.Prelude.{ℕ, ◌+◌, ◌*◌, ◌/◌, ◌^◌, Bool, leb}

-- `base64.StdEncoding.EncodedLen`, of Go's library.
abbrev pub encoded_len : ℕ → ℕ
encoded_len n = (n + 2) / 3 * 4

unfoldable pub validate_base64_len : ℕ → ℕ → Bool
validate_base64_len data_len length = leb data_len (encoded_len length)

-- 100 KiB and 2 MiB.
abbrev pub max_patch_size : ℕ
max_patch_size = 2 ^ 10 * 100

abbrev pub max_trigger_size : ℕ
max_trigger_size = 2 ^ 21

unfoldable pub validate_patch_size : ℕ → Bool
unfolding validate_base64_len
validate_patch_size data_len = validate_base64_len data_len max_patch_size

unfoldable pub validate_trigger_size : ℕ → Bool
unfolding validate_base64_len
validate_trigger_size data_len = validate_base64_len data_len max_trigger_size

unfoldable pub validate_freeform_size : ℕ → Bool
unfolding validate_base64_len
validate_freeform_size data_len = validate_base64_len data_len max_trigger_size
