-- ===== src/Utility/Dates.antt =====
-- relative_seconds_to_HHMMSS of winlin.utility.js, and the filter sc_filter_time of srs.en.js and
-- srs.cn.js that calls it. Seconds are whole; the hours, minutes and seconds in UTC of a Date are those
-- of the day. `none` means that the fuel of `padding` ran out.
pub mod Times
pub mod Local
mod Tests
use go_live_streaming.Base.{
  ℕ, ◌+◌, ◌*◌, ◌/◌, ◌%◌, Option, none, some, List, [], ◌∷◌, ◌++◌, if◌then◌else◌, ltb,
}
use go_live_streaming.Base.Text.{Text, codes}
use go_live_streaming.Base.Decimal.{dec, to_fixed}
use go_live_streaming.Utility.Strings.{padding}

-- `padding(n, 2, '0')`
unfoldable pub two_digits : ℕ → Option Text
unfolding padding dec
two_digits n = padding (dec n) 2 (codes "0")

abbrev pub with_colons : Option Text → Option Text → Option Text → Option Text
with_colons (some h) (some m) (some s) = some ((h ++ (codes ":" ++ m)) ++ (codes ":" ++ s))
with_colons _ _ _ = none

unfoldable pub relative_seconds_to_hhmmss : ℕ → Option Text
unfolding two_digits
relative_seconds_to_hhmmss seconds =
    with_colons (two_digits (seconds / 3600 % 24)) (two_digits (seconds / 60 % 60))
      (two_digits (seconds % 60))

abbrev pub behind : Text → Option Text → Option Text
behind s none = none
behind s (some t) = some (s ++ t)

-- For the text behind the days, "d " in English.
unfoldable pub sc_filter_time : Text → ℕ → Option Text
unfolding relative_seconds_to_hhmmss to_fixed
sc_filter_time unit v =
    if ltb (3600 * 24) v
    then behind (to_fixed 0 v (3600 * 24) ++ unit) (relative_seconds_to_hhmmss (v % (3600 * 24)))
    else behind [] (relative_seconds_to_hhmmss v)
