-- ===== src/Utility/Dates/Local/Shown.antt =====
-- What the printed dates say.
use go_live_streaming.Base.{ℕ, ◌+◌, ◌/◌, ◌%◌, ◌≡◌, ◌<◌, refl, some, ◌++◌, arith}
use go_live_streaming.Base.Text.{Text, codes}
use go_live_streaming.Base.Decimal.{dec}
use go_live_streaming.Utility.Dates.{relative_seconds_to_hhmmss}
use go_live_streaming.Utility.Dates.Times.{TwoDigits, two_digits_lem}
use go_live_streaming.Utility.Dates.Local.{
  Date, absolute_seconds_to_hhmmss, absolute_seconds_to_yyyymmdd,
}

-- A zone that is ahead of UTC by a fixed offset.
pub record IsZone (offset : ℕ) (date_of : ℕ → Date) : Type 0 where
  pub hours : (t : ℕ) → (date_of t).hours ≡ (t + offset) / 3600 % 24
  pub minutes : (t : ℕ) → (date_of t).minutes ≡ (t + offset) / 60 % 60
  pub seconds : (t : ℕ) → (date_of t).seconds ≡ (t + offset) % 60

-- In a zone ahead of UTC by an offset, the local time of a moment is printed as the relative time of
-- so many seconds more.
pub absolute_seconds_to_hhmmss-relative :
    (offset : ℕ) (date_of : ℕ → Date) (t : ℕ)
    → IsZone offset date_of
    → absolute_seconds_to_hhmmss date_of t ≡ relative_seconds_to_hhmmss (t + offset)
unfolding absolute_seconds_to_hhmmss relative_seconds_to_hhmmss
absolute_seconds_to_hhmmss-relative offset date_of t z = simp (z.hours, z.minutes, z.seconds)

-- Months count from 0 and days from 1.
pub record IsDay (d : Date) : Type 0 where
  pub month : d.month < 12
  pub date : d.date < 32

-- The day is printed as its year, its month, counted from 1, and its day of the month, the two of two
-- digits each.
pub absolute_seconds_to_yyyymmdd_lem :
    (date_of : ℕ → Date) (t : ℕ)
    → IsDay (date_of t)
    → (m d : Text) × (absolute_seconds_to_yyyymmdd date_of t
        ≡ some ((dec (date_of t).full_year ++ (codes "-" ++ m)) ++ (codes "-" ++ d)))
      × TwoDigits ((date_of t).month + 1) m
      × TwoDigits (date_of t).date d
unfolding absolute_seconds_to_yyyymmdd
absolute_seconds_to_yyyymmdd_lem date_of t h =
    let (m, me, md) = two_digits_lem ((date_of t).month + 1) (omega (arith, h.month)) in
    let (d, de, dd) = two_digits_lem (date_of t).date (omega (arith, h.date)) in
    (m, d, rw (me, de) refl, md, dd)
