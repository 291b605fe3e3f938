-- ===== src/Utility/Dates/Local.antt =====
-- The dates of winlin.utility.js in local time. What a Date says of a time is that of the browser's
-- time zone, which is a parameter: a zone with a fixed offset.
pub mod Shown
use go_live_streaming.Base.{ℕ, ◌+◌, ◌*◌, ◌/◌, ◌%◌, Option, none, some, [], ◌∷◌, ◌++◌}
use go_live_streaming.Base.Text.{Text, codes}
use go_live_streaming.Base.Decimal.{dec}
use go_live_streaming.Utility.Dates.{two_digits, with_colons}

-- A Date, by what `getHours` and its like return; months count from 0.
pub record Date : Type 0 where
  pub hours : ℕ
  pub minutes : ℕ
  pub seconds : ℕ
  pub full_year : ℕ
  pub month : ℕ
  pub date : ℕ

abbrev pub with_dashes : Text → Option Text → Option Text → Option Text
with_dashes y (some m) (some d) = some ((y ++ (codes "-" ++ m)) ++ (codes "-" ++ d))
with_dashes y _ _ = none

-- The Date of a time in seconds.
module _ (date_of : ℕ → Date) where
  unfoldable pub absolute_seconds_to_hhmmss : ℕ → Option Text
  unfolding two_digits
  absolute_seconds_to_hhmmss seconds =
      let date = date_of seconds in
      with_colons (two_digits date.hours) (two_digits date.minutes) (two_digits date.seconds)

  unfoldable pub absolute_seconds_to_yyyymmdd : ℕ → Option Text
  unfolding two_digits dec
  absolute_seconds_to_yyyymmdd seconds =
      let date = date_of seconds in
      with_dashes (dec date.full_year) (two_digits (date.month + 1)) (two_digits date.date)

-- `YYYYmmdd_parse(str)`, for the browser's `Date.parse`, which gives a time.
unfoldable pub yyyymmdd_parse : (ℕ → Date) → (Text → ℕ) → Text → Date
yyyymmdd_parse date_of date_parse str = date_of (date_parse str)
