-- ===== src/Players/Player/Buffers.antt =====
-- The buffer times of a player.
use go_live_streaming.Base.{
  ℕ, ◌*◌, ◌≤◌, ◌<◌, ◌≡◌, ◌⊎◌, inl, inr, ◌==◌, Bool-cases, true, false, none, arith,
}
use go_live_streaming.Players.Player.{Player, create, set_mbt, set_bt, max_buffer_of, tenths}

-- The times are consistent: the largest buffer is 0.6 seconds at least and no less than the buffer.
pub record IsBuffered (p : Player) : Type 0 where
  pub buffer_le : p.buffer_time ≤ p.max_buffer_time
  pub least : 600 ≤ p.max_buffer_time

pub create-IsBuffered : (id width height : ℕ) → IsBuffered (create id width height)
create-IsBuffered id width height = record { buffer_le = omega arith; least = omega arith }

-- `set_mbt` keeps the times consistent, and leaves the largest buffer within a tenth of a second of
-- what was asked for, which is raised to 0.6 seconds and to the buffer time.
pub set_mbt-IsBuffered :
    (t : ℕ) (p : Player)
    → IsBuffered p
    → IsBuffered (set_mbt t p).0
      × (tenths (set_mbt t p).0.max_buffer_time ≡ tenths (max_buffer_of p.buffer_time t))
      × ((set_mbt t p).0.buffer_time ≡ p.buffer_time)
unfolding set_mbt
set_mbt-IsBuffered t p v = (ground arith, ground arith, ground arith)

-- With a Flash object `set_bt` throws nothing, sets the buffer time and keeps the times consistent;
-- if the buffer time is a new one, the largest buffer goes to three times it (and 0.6 seconds at
-- least), within a tenth of a second.
pub set_bt-IsBuffered :
    (t : ℕ) (p : Player)
    → p.loaded ≡ true
    → IsBuffered p
    → ((set_bt t p).1 ≡ none)
      × IsBuffered (set_bt t p).0
      × ((set_bt t p).0.buffer_time ≡ t)
      × ((p.buffer_time ≡ t)
          ⊎ (tenths (set_bt t p).0.max_buffer_time ≡ tenths (max_buffer_of t (t * 3))))
unfolding set_bt set_mbt
set_bt-IsBuffered t p on v = (
  ground arith,
  ground arith,
  ground arith,
  elim (Bool-cases (p.buffer_time == t)) [
    | inl e ↦ inl (ground arith)
    | inr e ↦ inr (ground arith)
  ],
)

-- Without a Flash object, `set_bt` with a time above the buffer time and the largest buffer leaves the
-- times inconsistent: the buffer time is then above the largest buffer.
pub set_bt_early :
    (t : ℕ) (p : Player)
    → p.loaded ≡ false
    → p.max_buffer_time < t
    → p.buffer_time < t
    → ¬ IsBuffered (set_bt t p).0
unfolding set_bt set_mbt
set_bt_early t p off h k v = ground arith
