-- ===== src/GoStrings.antt =====
-- The functions of Go's package `strings` that the code calls. Texts stand for strings of bytes:
-- `len`, `slice` and positions count bytes of UTF-8.
use Prim.Native.Char.{code}
use Prim.Native.String.{[], ◌∷◌, len, slice}
use text.Mathlib.Text.{starts_with, find?}
use competition_api.Prelude.{
  ℕ, ◌-◌, String, Bool, true, false, ◌&&◌, ◌||◌, Option, none, some, ◌==◌, leb, str_eq,
  if◌then◌else◌,
}

abbrev pub is_some_position : Option ℕ → Bool
is_some_position none = false
is_some_position (some i) = true

-- `strings.Contains(s, t)`
abbrev pub contains : String → String → Bool
contains s t = is_some_position (find? s t)

-- `strings.HasPrefix(s, t)`
abbrev pub has_prefix : String → String → Bool
has_prefix s t = starts_with s t

-- `strings.HasSuffix(s, t)`
abbrev pub has_suffix : String → String → Bool
has_suffix s t = leb (len t) (len s) && str_eq (slice s (len s - len t) (len s)) t

-- `strings.TrimPrefix(s, t)`
abbrev pub trim_prefix : String → String → String
trim_prefix s t = if has_prefix s t then slice s (len t) (len s) else s

-- `unicode.IsSpace`
abbrev is_space : ℕ → Bool
is_space c =
    (leb 9 c && leb c 13)
    || c == 32
    || c == 0x85
    || c == 0xA0
    || c == 0x1680
    || (leb 0x2000 c && leb c 0x200A)
    || c == 0x2028
    || c == 0x2029
    || c == 0x202F
    || c == 0x205F
    || c == 0x3000

trim_left : String → String
trim_left [] = []
trim_left (c ∷ s) = let rest = trim_left s in if is_space (code c) then rest else c ∷ s

trim_right : String → String
trim_right [] = []
trim_right (c ∷ s) =
    let rest = trim_right s in if is_space (code c) && str_eq rest [] then [] else c ∷ rest

-- `strings.TrimSpace`
unfoldable pub trim_space : String → String
unfolding trim_left trim_right
trim_space s = trim_right (trim_left s)
