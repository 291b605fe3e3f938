-- ===== src/Utility/Dates/Times.antt =====
-- What the printed times say.
use go_live_streaming.Base.{
  ℕ, zero, suc, ◌+◌, ◌*◌, ◌/◌, ◌%◌, ◌≤◌, ◌<◌, ◌≡◌, refl, ap, ◌∙◌, ◌⊎◌, inl, inr, some, [], ◌∷◌,
  ◌++◌, arith, length, length-append, ltb, true, Bool-cases,
}
use go_live_streaming.Base.Text.{Text, codes}
use go_live_streaming.Base.Decimal.{dec, dec_from, number_from, number_from-dec, round_to}
use go_live_streaming.Utility.Strings.Padding.{repeat, IsPadded, padding-IsPadded, padding-IsPadded}
use go_live_streaming.Utility.Dates.{two_digits, relative_seconds_to_hhmmss, sc_filter_time}

number_from-zeros : (n : ℕ) (s : Text) → number_from 0 (repeat n (codes "0") ++ s) ≡ number_from 0 s
unfolding number_from
number_from-zeros zero s = refl
number_from-zeros (suc n) s = number_from-zeros n s

length-dec_from_one : (fuel n : ℕ) → n < 10 → length (dec_from fuel n) ≤ 1
unfolding dec_from
length-dec_from_one zero n h = omega arith
length-dec_from_one (suc fuel) n h = ground (arith, h)

length-dec_from_two : (fuel n : ℕ) → n < 100 → length (dec_from fuel n) ≤ 2
unfolding dec_from
length-dec_from_two zero n h = omega arith
length-dec_from_two (suc fuel) n h =
    let one = length-dec_from_one fuel (n / 10) (omega arith) in
    let sum = length-append (dec_from fuel (n / 10)) ((48 + n % 10) ∷ []) in
    ground (arith, h, one, sum)

-- A number as two digits.
pub record TwoDigits (n : ℕ) (t : Text) : Type 0 where
  pub two : length t ≡ 2
  pub value : number_from 0 t ≡ n

padded_length :
    (number t : Text) (p : IsPadded number 2 (codes "0") t) → length number ≤ 2 → length t ≡ 2
padded_length number t p h = elim p.least [
  | inl z ↦
      let same : length t ≡ length number =
        ap length p.shape ∙ ap (λ k. length (repeat k (codes "0") ++ number)) z in
      omega (arith, same, p.reached)
  | inr l ↦ omega (arith, l, p.reached)
]

pub two_digits_lem : (n : ℕ) → n < 100 → (t : Text) × (two_digits n ≡ some t) × TwoDigits n t
unfolding two_digits dec
two_digits_lem n h =
    let (t, e, p) = padding-IsPadded 2 (codes "0") (omega arith) (dec n) in
    (
      t,
      e,
      record {
        two = padded_length (dec n) t p (length-dec_from_two (suc n) n h);
        value =
            ap (number_from 0) p.shape ∙ (number_from-zeros p.times (dec n) ∙ number_from-dec n);
      },
    )

-- The time of the day in hours, minutes and seconds, of two digits each, which count the seconds.
pub relative_seconds_to_hhmmss_lem :
    (seconds : ℕ)
    → (h m s : Text) × (relative_seconds_to_hhmmss seconds
        ≡ some ((h ++ (codes ":" ++ m)) ++ (codes ":" ++ s)))
      × ((length h ≡ 2) × (length m ≡ 2) × (length s ≡ 2))
      × (number_from 0 h * 3600 + number_from 0 m * 60 + number_from 0 s ≡ seconds % 86400)
unfolding relative_seconds_to_hhmmss
relative_seconds_to_hhmmss_lem seconds =
    let (h, he, hd) = two_digits_lem (seconds / 3600 % 24) (omega arith) in
    let (m, me, md) = two_digits_lem (seconds / 60 % 60) (omega arith) in
    let (s, se, sd) = two_digits_lem (seconds % 60) (omega arith) in
    (
      h,
      m,
      s,
      rw (he, me, se) refl,
      (hd.two, md.two, sd.two),
      omega (arith, hd.value, md.value, sd.value),
    )

rounded_days :
    (v : ℕ)
    → ((v % 86400 < 43200) × (round_to 0 v 86400 ≡ v / 86400))
      ⊎ ((43200 ≤ v % 86400) × (round_to 0 v 86400 ≡ v / 86400 + 1))
unfolding round_to
rounded_days v = elim (Bool-cases (ltb (v % 86400) 43200)) [
  | inl first ↦ inl (ground arith, ground arith)
  | inr second ↦ inr (ground arith, ground arith)
]

-- The days are rounded: for more than a day they are the days that have passed only in the first half
-- of a day, and one more in the second half; the time behind them is that of the day.
pub sc_filter_time_days :
    (unit : Text) (v : ℕ)
    → 86400 < v
    → (d : ℕ) × (t : Text) × (relative_seconds_to_hhmmss (v % 86400) ≡ some t)
      × (sc_filter_time unit v ≡ some ((dec d ++ unit) ++ t))
      × (((v % 86400 < 43200) × (d ≡ v / 86400)) ⊎ ((43200 ≤ v % 86400) × (d ≡ v / 86400 + 1)))
unfolding sc_filter_time
sc_filter_time_days unit v h =
    let (hours, m, s, e, _, _) = relative_seconds_to_hhmmss_lem (v % 86400) in
    let more : ltb (3600 * 24) v ≡ true = ground (arith, h) in
    (
      round_to 0 v 86400,
      (hours ++ (codes ":" ++ m)) ++ (codes ":" ++ s),
      e,
      rw (sc_filter_time, more, e) refl,
      rounded_days v,
    )
