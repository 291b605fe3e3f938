-- ===== src/Urls/Page/Laws.antt =====
-- The loops that trim the URLs end, and they leave no separator at the end.
use mathlib.Core.Path.{subst}
use go_live_streaming.Base.{
  ℕ, zero, suc, ◌-◌, ◌≤◌, ◌≡◌, ◌≢◌, refl, ap, inl, inr, true, false, some, [], ◌∷◌, ◌++◌, arith,
  length, take, length-append, Bool-cases,
}
use go_live_streaming.Base.Text.{Text, codes, starts_with, last_index_of?}
use go_live_streaming.Urls.Query.{Window, Parsed}
use go_live_streaming.Urls.Page.{is_last, strip_last, rtc_uri, build_default_rtc_url}

-- A text with a first letter that is not the separator.
abbrev pub Starts : ℕ → Text → Type 0
Starts c [] = ⊥
Starts c (d ∷ s) = d ≢ c

last_index_of?-here : (c : ℕ) (s : Text) → last_index_of? (s ++ c ∷ []) (c ∷ []) ≡ some (length s)
unfolding last_index_of? starts_with
last_index_of?-here c [] = ground arith
last_index_of?-here c (d ∷ s) = ground (arith, last_index_of?-here c s)

length-take_le : (n : ℕ) (s : Text) → n ≤ length s → length (take n s) ≡ n
length-take_le zero s h = refl
length-take_le (suc n) [] h = absurd (omega arith)
length-take_le (suc n) (c ∷ s) h = ap suc (length-take_le n s (omega arith))

-- A text that starts otherwise is not only the separator, so that a letter stays.
take-Starts :
    (c : ℕ) (s : Text)
    → Starts c s
    → is_last (last_index_of? s (c ∷ [])) (length s) ≡ true
    → Starts c (take (length s - 1) s)
unfolding last_index_of? starts_with
take-Starts c [] h e = h
take-Starts c (d ∷ []) h e = absurd (ground (arith, h, e))
take-Starts c (d ∷ b ∷ s) h e =
    let n : suc (length s) ≡ length (d ∷ b ∷ s) - 1 = omega arith in
    subst (λ k. Starts c (take k (d ∷ b ∷ s))) n h

-- With fuel for every letter the loop ends where its test fails.
strip_last-stops :
    (fuel c : ℕ) (s : Text)
    → Starts c s
    → length s ≤ fuel
    → is_last
        (last_index_of? (strip_last fuel (c ∷ []) s) (c ∷ []))
        (length (strip_last fuel (c ∷ []) s))
      ≡ false
unfolding strip_last
strip_last-stops zero c [] h n = absurd h
strip_last-stops zero c (d ∷ s) h n = absurd (omega arith)
strip_last-stops (suc fuel) c s h n =
    elim (Bool-cases (is_last (last_index_of? s (c ∷ [])) (length s))) [
      | inl e ↦ rw e (
          strip_last-stops fuel c (take (length s - 1) s) (take-Starts c s h e)
            (ground (arith, length-take_le (length s - 1) s (omega arith))))
      | inr e ↦ rw (e, e) refl
    ]

strip_last-no_separator :
    (c : ℕ) (s t : Text) → Starts c s → strip_last (length s) (c ∷ []) s ≢ t ++ c ∷ []
strip_last-no_separator c s t h e =
    let stops = strip_last-stops (length s) c s h (omega arith) in
    let here = last_index_of?-here c t in
    let size = length-append t (c ∷ []) in
    let ended : is_last (last_index_of? (t ++ c ∷ []) (c ∷ [])) (length (t ++ c ∷ [])) ≡ false =
      subst (λ r. is_last (last_index_of? r (c ∷ [])) (length r) ≡ false) e stops in
    let there : is_last (some (length t)) (length (t ++ c ∷ [])) ≡ false =
      subst (λ o. is_last o (length (t ++ c ∷ [])) ≡ false) here ended in
    ground (arith, size, there)

-- The rtc URL that a page offers never ends with a question mark.
pub build_default_rtc_url-no_mark :
    (w : Window) (query : Parsed) (t : Text) → build_default_rtc_url w query ≢ t ++ codes "?"
unfolding build_default_rtc_url rtc_uri
build_default_rtc_url-no_mark w query t =
    strip_last-no_separator 63 (rtc_uri w query) t (ground arith)
