-- ===== src/Utility/Strings/Ends.antt =====
-- What the tests on the ends of a text say, and what is left after a trim.
use mathlib.Core.List.{append_assoc, append-nil}
use go_live_streaming.Base.{
  ℕ, zero, suc, ◌+◌, ◌-◌, ◌≤◌, ◌<◌, ◌≡◌, ◌≢◌, ◌↔◌, refl, sym, ◌∙◌, ap, inl, inr, true, false,
  Option, none, some, List, [], ◌∷◌, ◌++◌, arith, length, take, drop, length-append, Bool-cases,
  take-append-drop, length-drop, drop-append, take-append,
}
use go_live_streaming.Base.Text.{
  Text, starts_with, index_of?, slice, is_empty, starts_with→eq, starts_with-append,
  index_of?-starts_with, index_of?-append,
}
use go_live_streaming.Utility.Strings.Padding.{repeat, repeat_comm}
use go_live_streaming.Utility.Strings.{
  is_at, startswith_text, endswith_text, trim_start, trim_end, system_string_trim,
}

drop_all {ℓ} : {A : Type ℓ} (xs : List A) → drop (length xs) xs ≡ []
drop_all [] = refl
drop_all (x ∷ xs) = drop_all xs

starts_with-length-le : (s t : Text) → starts_with s t ≡ true → length t ≤ length s
starts_with-length-le s t h =
    omega (arith, ap length (starts_with→eq s t h), length-append t (drop (length t) s))

index_of?-zero : (s t : Text) → starts_with s t ≡ true → index_of? s t ≡ some 0
index_of?-zero s t h = rw (starts_with→eq s t h) (index_of?-append _ t)

take_all {ℓ} : {A : Type ℓ} (xs : List A) → take (length xs) xs ≡ xs
take_all [] = refl
take_all (x ∷ xs) = ap (λ zs. x ∷ zs) (take_all xs)

pub slice_tail : (t u : Text) → slice (t ++ u) (length t) (length (t ++ u)) ≡ u
slice_tail t u =
    rw
      (
        drop-append t u,
        let e : length (t ++ u) - length t ≡ length u = omega (arith, length-append t u) in e,
      )
      (take_all u)

slice_head : (u t : Text) → slice (u ++ t) 0 (length (u ++ t) - length t) ≡ u
slice_head u t =
    rw (let e : length (u ++ t) - length t - 0 ≡ length u = omega (arith, length-append u t) in e)
      (take-append u t)

-- `system_string_startswith` holds of a text exactly if the flag is a prefix and is not empty.
pub startswith_text_iff :
    (str flag : Text)
    → (startswith_text str flag ≡ true) ↔ ((flag ≢ []) × (starts_with str flag ≡ true))
unfolding startswith_text starts_with
startswith_text_iff [] [] = (λ h. cc, λ h. absurd (h.0 refl))
startswith_text_iff [] (c ∷ flag) = (λ h. cc, λ h. ground (arith, h.1))
startswith_text_iff (d ∷ str) [] = (λ h. cc, λ h. absurd (h.0 refl))
startswith_text_iff (d ∷ str) (c ∷ flag) = (
  λ h. (λ e. cc, index_of?-starts_with (d ∷ str) (c ∷ flag) 0 (ground arith)),
  λ h. ground (
    arith,
    index_of?-zero (d ∷ str) (c ∷ flag) h.1,
    starts_with-length-le (d ∷ str) (c ∷ flag) h.1,
  ),
)

length-pos : (s : Text) → s ≢ [] → 0 < length s
length-pos [] h = absurd (h refl)
length-pos (c ∷ s) h = omega arith

is_empty-false : (s : Text) → s ≢ [] → is_empty s ≡ false
is_empty-false [] h = absurd (h refl)
is_empty-false (c ∷ s) h = refl

empty_of_length {ℓ} : {A : Type ℓ} (xs : List A) → length xs ≡ 0 → xs ≡ []
empty_of_length [] h = refl
empty_of_length (x ∷ xs) h = absurd (omega arith)

eq_of_starts_with : (s t : Text) → starts_with s t ≡ true → length s ≡ length t → s ≡ t
eq_of_starts_with s t h e =
    let split = starts_with→eq s t h in
    let rest = empty_of_length (drop (length t) s) (omega (arith, length-drop (length t) s)) in
    split ∙ (ap (λ u. t ++ u) rest ∙ append-nil t)

suffix_at :
    (s t : Text) (i : ℕ) → index_of? s t ≡ some i → i + length t ≡ length s → s ≡ take i s ++ t
suffix_at s t i h e =
    let here =
      eq_of_starts_with (drop i s) t (index_of?-starts_with s t i h)
        (omega (arith, length-drop i s)) in
    sym (take-append-drop i s) ∙ ap (λ u. take i s ++ u) here

is_at→eq : (o : Option ℕ) (n : ℕ) → is_at o n ≡ true → o ≡ some n
is_at→eq none n h = cc
is_at→eq (some i) n h = ground arith

-- What `system_string_endswith` accepts ends with the flag.
pub endswith_text_sound :
    (str flag : Text)
    → endswith_text str flag ≡ true
    → (flag ≢ []) × (str ≡ take (length str - length flag) str ++ flag)
unfolding endswith_text
endswith_text_sound [] flag h = cc
endswith_text_sound (d ∷ str) [] h = cc
endswith_text_sound (d ∷ str) (c ∷ flag) h = (
  λ e. cc,
  suffix_at (d ∷ str) (c ∷ flag) (length (d ∷ str) - length (c ∷ flag))
      (is_at→eq (index_of? (d ∷ str) (c ∷ flag)) (length (d ∷ str) - length (c ∷ flag))
        (ground arith))
      (ground arith),
)

-- It misses a flag that has occurred before: no text that starts and ends with the flag is accepted.
pub endswith_text_repeated :
    (flag middle : Text) → endswith_text (flag ++ (middle ++ flag)) flag ≡ false
unfolding endswith_text
endswith_text_repeated [] middle = ground arith
endswith_text_repeated (c ∷ flag) middle = ground (
  arith,
  index_of?-append (middle ++ c ∷ flag) (c ∷ flag),
  length-append flag (middle ++ c ∷ flag),
  length-append middle (c ∷ flag),
)

starts_with-append_right : (s t u : Text) → starts_with s t ≡ true → starts_with (s ++ u) t ≡ true
starts_with-append_right s t u h =
    rw (starts_with→eq s t h, append_assoc t (drop (length t) s) u) (starts_with-append t _)

-- What a trim takes off.
module _ (flag : Text) (proper : flag ≢ []) where
  shorter : (r : Text) → length r < length (flag ++ r)
  shorter r = omega (arith, length-append flag r, length-pos flag proper)

  trim_start_hit :
      (fuel : ℕ) (r : Text)
      → startswith_text (flag ++ r) flag ≡ true
      → trim_start (suc fuel) (flag ++ r) flag ≡ trim_start fuel r flag
  unfolding trim_start
  trim_start_hit fuel r there = rw (there, trim_start, slice_tail flag r)

  trim_end_hit :
      (fuel : ℕ) (r : Text)
      → endswith_text (r ++ flag) flag ≡ true
      → trim_end (suc fuel) (r ++ flag) flag ≡ trim_end fuel r flag
  unfolding trim_end
  trim_end_hit fuel r there = rw (there, trim_end, slice_head r flag)

  trim_start_miss :
      (fuel : ℕ) (str : Text)
      → startswith_text str flag ≡ false
      → trim_start (suc fuel) str flag ≡ some str
  unfolding trim_start
  trim_start_miss fuel str clear = rw (clear, trim_start)

  trim_end_miss :
      (fuel : ℕ) (str : Text)
      → endswith_text str flag ≡ false
      → trim_end (suc fuel) str flag ≡ some str
  unfolding trim_end
  trim_end_miss fuel str clear = rw (clear, trim_end)

  -- A text is the flags that the first loop takes off, and the rest.
  abbrev StartTrimmed : Text → Option Text → Type 0
  StartTrimmed str o =
      (r : Text) × (o ≡ some r)
      × (startswith_text r flag ≡ false)
      × (n : ℕ) × (str ≡ repeat n flag ++ r)

  abbrev EndTrimmed : Text → Option Text → Type 0
  EndTrimmed str o =
      (r : Text) × (o ≡ some r)
      × (endswith_text r flag ≡ false)
      × (n : ℕ) × (str ≡ r ++ repeat n flag)

  trim_start_lem :
      (fuel : ℕ) (str : Text) → length str < fuel → StartTrimmed str (trim_start fuel str flag)
  trim_start_lem zero str h = absurd (omega arith)
  trim_start_lem (suc fuel) str h = elim (Bool-cases (startswith_text str flag)) [
    | inr clear ↦ (str, trim_start_miss fuel str clear, clear, 0, refl)
    | inl there ↦
        let rest : Text = drop (length flag) str in
        let split : str ≡ flag ++ rest =
          starts_with→eq str flag ((startswith_text_iff str flag).0 there).1 in
        let (r, e, clear, n, shape) =
          trim_start_lem fuel rest (omega (arith, ap length split, shorter rest)) in
        (
          r,
          ap (λ s. trim_start (suc fuel) s flag) split
              ∙ (trim_start_hit fuel rest (rw split at there) ∙ e),
          clear,
          suc n,
          split ∙ (ap (λ u. flag ++ u) shape ∙ sym (append_assoc flag (repeat n flag) r)),
        )
  ]

  trim_end_lem :
      (fuel : ℕ) (str : Text) → length str < fuel → EndTrimmed str (trim_end fuel str flag)
  trim_end_lem zero str h = absurd (omega arith)
  trim_end_lem (suc fuel) str h = elim (Bool-cases (endswith_text str flag)) [
    | inr clear ↦ (str, trim_end_miss fuel str clear, clear, 0, sym (append-nil str))
    | inl there ↦
        let rest : Text = take (length str - length flag) str in
        let split : str ≡ rest ++ flag = (endswith_text_sound str flag there).1 in
        let (r, e, clear, n, shape) =
          trim_end_lem fuel rest
            (omega (arith, ap length split, length-append rest flag, length-pos flag proper)) in
        (
          r,
          ap (λ s. trim_end (suc fuel) s flag) split
              ∙ (trim_end_hit fuel rest (rw split at there) ∙ e),
          clear,
          suc n,
          split
              ∙ (ap (λ u. u ++ flag) shape
                  ∙ (append_assoc r (repeat n flag) flag ∙ ap (λ u. r ++ u) (repeat_comm n flag))),
        )
  ]

  startswith_text-append_right :
      (s u : Text) → startswith_text (s ++ u) flag ≡ false → startswith_text s flag ≡ false
  startswith_text-append_right s u h = elim (Bool-cases (startswith_text s flag)) [
    | inr clear ↦ clear
    | inl there ↦
        let at = (startswith_text_iff s flag).0 there in
        let more =
          (startswith_text_iff (s ++ u) flag).1 (proper, starts_with-append_right s flag u at.1) in
        cc
  ]

  trim_of :
      (str s r : Text)
      → trim_start (suc (length str)) str flag ≡ some s
      → trim_end (suc (length s)) s flag ≡ some r
      → system_string_trim str flag ≡ some r
  unfolding system_string_trim
  trim_of str s r e f = rw (is_empty-false flag proper, e) f

  -- For a flag that is not empty both loops end; what is left neither starts nor ends with the flag,
  -- as the two tests have it, and the text was this with copies of the flag around it.
  pub system_string_trim_lem :
      (str : Text)
      → (r : Text) × (system_string_trim str flag ≡ some r)
        × (startswith_text r flag ≡ false)
        × (endswith_text r flag ≡ false)
        × (before after : ℕ) × (str ≡ repeat before flag ++ (r ++ repeat after flag))
  unfolding system_string_trim
  system_string_trim_lem str =
      let (s, e, clear, m, shape) = trim_start_lem (suc (length str)) str (omega arith) in
      let (r, f, done, n, tail) = trim_end_lem (suc (length s)) s (omega arith) in
      (
        r,
        trim_of str s r e f,
        startswith_text-append_right r (repeat n flag) (rw tail at clear),
        done,
        m,
        n,
        shape ∙ ap (λ u. repeat m flag ++ u) tail,
      )
