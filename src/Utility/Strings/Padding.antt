-- ===== src/Utility/Strings/Padding.antt =====
-- Padding ends, and makes no text longer than it has to.
use mathlib.Core.List.{append_assoc, append-nil}
use go_live_streaming.Base.{
  ℕ, zero, suc, ◌+◌, ◌≤◌, ◌<◌, ◌≡◌, refl, sym, ◌∙◌, ap, ◌⊎◌, inl, inr, some, [], ◌++◌, arith,
  length, length-append, leb, Bool-cases,
}
use go_live_streaming.Base.Text.{Text}
use go_live_streaming.Utility.Strings.{padding_from, padding}

-- The prefix, a number of times.
abbrev pub repeat : ℕ → Text → Text
repeat zero prefix = []
repeat (suc n) prefix = prefix ++ repeat n prefix

pub repeat_comm : (n : ℕ) (prefix : Text) → repeat n prefix ++ prefix ≡ prefix ++ repeat n prefix
repeat_comm zero prefix = sym (append-nil prefix)
repeat_comm (suc n) prefix = rw (append_assoc prefix (repeat n prefix) prefix, repeat_comm n prefix)

-- What `padding` promises of a result.
pub record IsPadded (number : Text) (len : ℕ) (prefix r : Text) : Type 0 where
  pub times : ℕ
  pub shape : r ≡ repeat times prefix ++ number
  pub reached : len ≤ length r
  pub least : (times ≡ 0) ⊎ (length r < len + length prefix)

module _ (len : ℕ) (prefix : Text) (proper : 0 < length prefix) where
  regroup : (n : ℕ) (t : Text) → repeat n prefix ++ (prefix ++ t) ≡ (prefix ++ repeat n prefix) ++ t
  regroup n t = rw (← append_assoc (repeat n prefix) prefix t, repeat_comm n prefix)

  -- One prefix more in front of a text that was too short does not go beyond the bound.
  least_suc :
      (times : ℕ) (number r : Text)
      → r ≡ repeat times prefix ++ (prefix ++ number)
      → (times ≡ 0) ⊎ (length r < len + length prefix)
      → length number < len
      → length r < len + length prefix
  least_suc zero number r e l less = omega (arith, ap length e, length-append prefix number)
  least_suc (suc n) number r e (inl z) less = absurd (omega arith)
  least_suc (suc n) number r e (inr l) less = l

  padding_from_lem :
      (fuel : ℕ) (number : Text)
      → 0 < fuel
      → len < fuel + length number
      → (r : Text) × (padding_from fuel number len prefix ≡ some r) × IsPadded number len prefix r
  unfolding padding_from
  padding_from_lem zero number pos h = absurd (omega arith)
  padding_from_lem (suc fuel) number pos h = elim (Bool-cases (leb len (length number))) [
    | inl enough ↦ (
      number,
      rw enough,
      record { times = 0; shape = refl; reached = ground arith; least = inl refl },
    )
    | inr short ↦
        let less : length number < len = ground arith in
        let (r, e, p) =
          padding_from_lem fuel (prefix ++ number) (omega arith)
            (omega (arith, length-append prefix number)) in
        (
          r,
          rw short e,
          record {
            times = suc p.times;
            shape = p.shape ∙ regroup p.times number;
            reached = p.reached;
            least = inr (least_suc p.times number r p.shape p.least less);
          },
        )
  ]

  -- For a prefix that is not empty `padding` ends; it puts the prefix in front of the number as often
  -- as is needed to reach the length, and not once more.
  pub padding-IsPadded :
      (number : Text)
      → (r : Text) × (padding number len prefix ≡ some r) × IsPadded number len prefix r
  unfolding padding
  padding-IsPadded number = padding_from_lem (suc len) number (omega arith) (omega arith)
