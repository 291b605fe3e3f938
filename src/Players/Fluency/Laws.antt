-- ===== src/Players/Fluency/Laws.antt =====
-- The fluency of a stream is a percentage, as long as the clock does not go back.
use go_live_streaming.Base.{ℕ, ◌+◌, ◌*◌, ◌≤◌, ◌<◌, ◌≡◌, refl, List, [], ◌∷◌, arith}
use go_live_streaming.Base.Int.{ℤ, pos, neg_part, pos_part, ◌+ℤ◌, ◌*ℤ◌}
use go_live_streaming.Players.Fluency.{
  Fluency, fresh, on_stream_empty, on_stream_full, Percent, nothing, fraction, percent, calc,
}

-- What Flash reports: NetStream.Buffer.Empty and NetStream.Buffer.Full, each with its time.
pub data Report : Type 0 where
  empty full : ℕ → Report

abbrev pub time_of : Report → ℕ
time_of (empty t) = t
time_of (full t) = t

abbrev pub report : Fluency → Report → Fluency
report f (empty t) = on_stream_empty t f
report f (full t) = on_stream_full t f

abbrev pub reports : Fluency → List Report → Fluency
reports f [] = f
reports f (r ∷ rs) = reports (report f r) rs

-- The reports come in the order of time, between two times.
abbrev pub InOrder : ℕ → List Report → ℕ → Type 0
InOrder from [] to = from ≤ to
InOrder from (r ∷ rs) to = (from ≤ time_of r) × InOrder (time_of r) rs to

record Inv (f : Fluency) (now : ℕ) : Type 0 where
  nonneg : neg_part f.total_empty_time ≡ 0
  bounded : pos_part f.total_empty_time ≤ now
  current_le : f.current_empty_time ≤ now
  -- what has been counted is before the drought that is being measured
  before : 0 < f.current_empty_time → pos_part f.total_empty_time ≤ f.current_empty_time

report-Inv :
    (f : Fluency) (r : Report) (now : ℕ)
    → now ≤ time_of r
    → Inv f now
    → Inv (report f r) (time_of r)
unfolding on_stream_empty on_stream_full
report-Inv f (empty t) now h v = record {
  nonneg = v.nonneg;
  bounded = omega (arith, v.bounded);
  current_le = omega arith;
  before = λ p. omega (arith, v.bounded);
}
report-Inv f (full t) now h v = ground (arith, v.before)

reports-Inv :
    (f : Fluency) (rs : List Report) (now to : ℕ)
    → InOrder now rs to
    → Inv f now
    → Inv (reports f rs) to
reports-Inv f [] now to h v = record {
  nonneg = v.nonneg;
  bounded = omega (arith, v.bounded);
  current_le = omega (arith, v.current_le);
  before = v.before;
}
reports-Inv f (r ∷ rs) now to h v =
    reports-Inv (report f r) rs (time_of r) to h.1 (report-Inv f r now h.0 v)

-- The denominator is positive, and the fraction is at most a hundred.
abbrev pub IsPercentage : Percent → Type 0
IsPercentage nothing = Unit
IsPercentage (fraction num den) =
    (neg_part den ≡ 0) × (0 < pos_part den) × (num ≤ 100 * pos_part den)

+ℤ_natural :
    (a b : ℤ)
    → neg_part a ≡ 0
    → neg_part b ≡ 0
    → (neg_part (a +ℤ b) ≡ 0) × (pos_part (a +ℤ b) ≡ pos_part a + pos_part b)
unfolding ◌+ℤ◌
+ℤ_natural a b h k = (ground arith, ground arith)

twice_natural : (a : ℤ) → neg_part a ≡ 0 → neg_part (a *ℤ pos 2) ≡ 0
unfolding ◌*ℤ◌
twice_natural (pos n) h = ground arith
twice_natural _ h = absurd (omega arith)

percent-IsPercentage :
    (time : ℕ) (den : ℤ)
    → neg_part den ≡ 0
    → time ≤ pos_part den
    → IsPercentage (percent (time * 100) den)
percent-IsPercentage time (pos n) h k = ground arith
percent-IsPercentage time _ h k = absurd (omega arith)

calc-IsPercentage : (f : Fluency) (now : ℕ) → Inv f now → IsPercentage (calc now f)
unfolding calc
calc-IsPercentage f now v =
    let twice : ℤ = f.total_empty_time *ℤ pos 2 in
    let some_time : ℤ = pos (f.total_empty_count * 4) +ℤ twice in
    let inner =
      +ℤ_natural (pos (f.total_empty_count * 4)) twice refl
        (twice_natural f.total_empty_time v.nonneg) in
    let outer = +ℤ_natural some_time (pos now) inner.0 refl in
    percent-IsPercentage now (some_time +ℤ pos now) outer.0 (omega (arith, outer.1))

-- If the reports come in the order of time, then at every later time: the time that the stream is
-- counted as dry is not negative and has passed, and the fluency is a percentage.
pub fluency_bounds :
    (rs : List Report) (now : ℕ)
    → InOrder 0 rs now
    → (neg_part (reports fresh rs).total_empty_time ≡ 0)
      × (pos_part (reports fresh rs).total_empty_time ≤ now)
      × IsPercentage (calc now (reports fresh rs))
fluency_bounds rs now h =
    let v = reports-Inv fresh rs 0 now h (record {
      nonneg = refl;
      bounded = omega arith;
      current_le = omega arith;
      before = λ p. omega arith;
    }) in
    (v.nonneg, v.bounded, calc-IsPercentage (reports fresh rs) now v)
