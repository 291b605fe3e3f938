-- ===== src/Utility/Strings.antt =====
-- The text helpers of winlin.utility.js.
pub mod Ends
pub mod Padding
mod Tests
use go_live_streaming.Base.{
  ℕ, zero, suc, ◌+◌, ◌-◌, Bool, true, false, not, ◌&&◌, ◌||◌, Option, none, some, List, [], ◌∷◌,
  ◌++◌, length, ◌==◌, if◌then◌else◌, leb,
}
use go_live_streaming.Base.Text.{Text, codes, index_of?, slice, join, is_empty}

-- `flag`: a text or an array of texts.
pub data Flag : Type 0 where
  text : Text → Flag
  texts : List Text → Flag

-- `i == n` for the index that indexOf returns
abbrev pub is_at : Option ℕ → ℕ → Bool
is_at none n = false
is_at (some i) n = i == n

-- The last line of `system_string_startswith`; the coerced text of an array is given with its length.
abbrev pub starts_at_zero : Text → Text → Bool → ℕ → Bool
starts_at_zero str flag truthy len =
    not (is_empty str) && truthy && leb len (length str) && is_at (index_of? str flag) 0

abbrev pub ends_at_first : Text → Text → Bool → ℕ → Bool
ends_at_first str flag truthy len =
    not (is_empty str)
    && truthy
    && leb len (length str)
    && is_at (index_of? str flag) (length str - len)

-- `system_string_startswith(str, flag)` for a text
unfoldable pub startswith_text : Text → Text → Bool
startswith_text str flag = starts_at_zero str flag (not (is_empty flag)) (length flag)

abbrev pub any : (Text → Bool) → List Text → Bool
any p [] = false
any p (flag ∷ flags) = p flag || any p flags

unfoldable pub system_string_startswith : Text → Flag → Bool
unfolding startswith_text
system_string_startswith str (text flag) = startswith_text str flag
system_string_startswith str (texts flags) =
    any (startswith_text str) flags
    || starts_at_zero str (join flags (codes ",")) true (length flags)

-- `system_string_endswith(str, flag)` for a text
unfoldable pub endswith_text : Text → Text → Bool
endswith_text str flag = ends_at_first str flag (not (is_empty flag)) (length flag)

unfoldable pub system_string_endswith : Text → Flag → Bool
unfolding endswith_text
system_string_endswith str (text flag) = endswith_text str flag
system_string_endswith str (texts flags) =
    any (endswith_text str) flags || ends_at_first str (join flags (codes ",")) true (length flags)

-- The two loops of `system_string_trim`; `none` means that the fuel ran out.
unfoldable pub trim_start : ℕ → Text → Text → Option Text
trim_start zero str flag = none
trim_start (suc fuel) str flag = elim (startswith_text str flag) [
  | true ↦ trim_start fuel (slice str (length flag) (length str)) flag
  | false ↦ some str
]

unfoldable pub trim_end : ℕ → Text → Text → Option Text
trim_end zero str flag = none
trim_end (suc fuel) str flag = elim (endswith_text str flag) [
  | true ↦ trim_end fuel (slice str 0 (length str - length flag)) flag
  | false ↦ some str
]

abbrev pub trim_end_of : Text → Option Text → Option Text
trim_end_of flag none = none
trim_end_of flag (some str) = trim_end (suc (length str)) str flag

unfoldable pub system_string_trim : Text → Text → Option Text
unfolding trim_start trim_end
system_string_trim str flag =
    if is_empty flag then some str else trim_end_of flag (trim_start (suc (length str)) str flag)

-- `padding(number, length, prefix)`, where `number` is what String makes of it; `none` means that
-- the fuel ran out.
unfoldable pub padding_from : ℕ → Text → ℕ → Text → Option Text
padding_from zero number len prefix = none
padding_from (suc fuel) number len prefix =
    let rest = padding_from fuel (prefix ++ number) len prefix in
    if leb len (length number) then some number else rest

unfoldable pub padding : Text → ℕ → Text → Option Text
unfolding padding_from
padding number len prefix = padding_from (suc len) number len prefix
