-- ===== src/Utility/Dates/Tests.antt =====
-- Times at concrete inputs.
use go_live_streaming.Base.{ℕ, ◌+◌, ◌/◌, ◌%◌, ◌≡◌, ◌≤◌, ◌<◌, refl, ◌⊎◌, some, ◌++◌, arith}
use go_live_streaming.Base.Text.{Text, codes}
use go_live_streaming.Base.Decimal.{dec}
use go_live_streaming.Utility.Dates.{relative_seconds_to_hhmmss, sc_filter_time}
use go_live_streaming.Utility.Dates.Times.{sc_filter_time_days}

-- A day and a half.
abbrev day_and_half : ℕ
day_and_half = 129600

sc_filter_time_days_example :
    (d : ℕ) × (t : Text) × (relative_seconds_to_hhmmss (day_and_half % 86400) ≡ some t)
    × (sc_filter_time (codes "d ") day_and_half ≡ some ((dec d ++ codes "d ") ++ t))
    × (((day_and_half % 86400 < 43200) × (d ≡ day_and_half / 86400))
        ⊎ ((43200 ≤ day_and_half % 86400) × (d ≡ day_and_half / 86400 + 1)))
sc_filter_time_days_example = sc_filter_time_days (codes "d ") day_and_half (omega arith)

-- One day sharp is printed like no time at all.
one_day : sc_filter_time (codes "d ") 86400 ≡ some (codes "00:00:00")
unfolding sc_filter_time
one_day = refl
