-- ===== src/Players/Fluency.antt =====
-- The object `__fluency` of srs.player.js, which measures how long a stream ran dry. Times are the
-- milliseconds of Flash's getTimer.
pub mod Laws
use go_live_streaming.Base.{ℕ, suc, ◌+◌, ◌*◌, ltb, if◌then◌else◌}
use go_live_streaming.Base.Int.{ℤ, pos, ◌+ℤ◌, ◌-ℤ◌, ◌*ℤ◌, ltb_ℤ}

pub record Fluency : Type 0 where
  pub total_empty_count : ℕ
  pub total_empty_time : ℤ
  pub current_empty_time : ℕ

abbrev pub fresh : Fluency
fresh = record { total_empty_count = 0; total_empty_time = pos 0; current_empty_time = 0 }

unfoldable pub on_stream_empty : ℕ → Fluency → Fluency
on_stream_empty time f = record f {
  total_empty_count = suc f.total_empty_count;
  current_empty_time = time;
}

unfoldable pub on_stream_full : ℕ → Fluency → Fluency
unfolding ◌+ℤ◌ ◌-ℤ◌
on_stream_full time f =
    if ltb 0 f.current_empty_time
    then record f {
      total_empty_time = f.total_empty_time +ℤ (pos time -ℤ pos f.current_empty_time);
      current_empty_time = 0;
    }
    else f

-- A percentage as the fraction that the source divides out.
pub data Percent : Type 0 where
  nothing : Percent
  fraction : ℕ → ℤ → Percent

-- `den > 0 ? num / den : 0`
abbrev pub percent : ℕ → ℤ → Percent
percent num den = if ltb_ℤ (pos 0) den then fraction num den else nothing

unfoldable pub calc : ℕ → Fluency → Percent
calc time f =
    percent (time * 100)
      (pos (f.total_empty_count * 4) +ℤ (f.total_empty_time *ℤ pos 2) +ℤ pos time)
