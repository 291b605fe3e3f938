-- ===== src/Signaling/Parse/Squeeze.antt =====
-- The loop that shortens every run of "&" to one.
use go_live_streaming.Base.{
  ℕ, zero, suc, ◌+◌, ◌<◌, ◌≡◌, refl, sym, ap, ◌∙◌, Bool, true, false, ◌&&◌, none, some, [], ◌∷◌,
  ◌++◌, arith, ◌==◌, if◌then◌else◌, length, take, drop, Option-cases, inl, inr,
}
use mathlib.Core.List.{append_assoc}
use go_live_streaming.Base.Text.{
  Text, codes, starts_with, index_of?, index_of?-starts_with, replace,
}
use go_live_streaming.Signaling.Parse.{squeeze}

-- The text begins with "&".
abbrev pub starts_and : Text → Bool
starts_and [] = false
starts_and (c ∷ s) = c == 38

-- Every run of "&" is one.
unfoldable pub collapse : Text → Text
collapse [] = []
collapse (c ∷ s) = let rest = collapse s in if (c == 38) && starts_and s then rest else c ∷ rest

-- There are no two "&" in a row.
abbrev pub Single : Text → Type 0
Single [] = Unit
Single (c ∷ s) = (((c == 38) && starts_and s) ≡ false) × Single s

starts_two : (s : Text) → starts_with s (codes "&&") ≡ true → (t : Text) × (s ≡ 38 ∷ 38 ∷ t)
unfolding starts_with
starts_two [] h = absurd (ground arith)
starts_two (c ∷ []) h = absurd (ground arith)
starts_two (c ∷ d ∷ t) h =
    let one : c ≡ 38 = ground arith in let two : d ≡ 38 = ground arith in (t, rw (one, two) refl)

-- One letter less where there are two "&".
unfoldable pub cut : ℕ → Text → Text
cut zero [] = []
cut zero (c ∷ s) = s
cut (suc i) [] = []
cut (suc i) (c ∷ s) = c ∷ cut i s

empty_starts : (A : Type 0) → starts_with [] (codes "&&") ≡ true → A
unfolding starts_with
empty_starts A h = absurd (ground arith)

cut-starts_and :
    (i : ℕ) (s : Text)
    → starts_with (drop i s) (codes "&&") ≡ true
    → starts_and (cut i s) ≡ starts_and s
unfolding cut
cut-starts_and zero s h = let (t, e) = starts_two s h in rw e refl
cut-starts_and (suc i) [] h = empty_starts _ h
cut-starts_and (suc i) (c ∷ s) h = refl

collapse-cut :
    (i : ℕ) (s : Text)
    → starts_with (drop i s) (codes "&&") ≡ true
    → collapse (cut i s) ≡ collapse s
unfolding cut collapse
collapse-cut zero s h = let (t, e) = starts_two s h in rw e refl
collapse-cut (suc i) [] h = empty_starts _ h
collapse-cut (suc i) (c ∷ s) h =
    let same = cut-starts_and i s h in let rest = collapse-cut i s h in rw (same, rest) refl

length-cut :
    (i : ℕ) (s : Text)
    → starts_with (drop i s) (codes "&&") ≡ true
    → suc (length (cut i s)) ≡ length s
unfolding cut
length-cut zero s h = let (t, e) = starts_two s h in rw e refl
length-cut (suc i) [] h = empty_starts _ h
length-cut (suc i) (c ∷ s) h = ap suc (length-cut i s h)

cut_lem :
    (i : ℕ) (s : Text)
    → starts_with (drop i s) (codes "&&") ≡ true
    → take i s ++ 38 ∷ drop (suc (suc i)) s ≡ cut i s
unfolding cut
cut_lem zero s h = let (t, e) = starts_two s h in rw e refl
cut_lem (suc i) [] h = empty_starts _ h
cut_lem (suc i) (c ∷ s) h = ap (λ t. c ∷ t) (cut_lem i s h)

-- One letter in place of two, as `replace` makes it.
pub one_for_two :
    (i c : ℕ) (s : Text)
    → (take i s ++ c ∷ []) ++ drop (i + 2) s ≡ take i s ++ c ∷ drop (suc (suc i)) s
one_for_two i c s =
    append_assoc (take i s) (c ∷ []) (drop (i + 2) s) ∙ ap (λ n. take i s ++ c ∷ drop n s) two_more
  where
    two_more : i + 2 ≡ suc (suc i)
    two_more = omega arith

replace-cut :
    (s : Text) (i : ℕ)
    → index_of? s (codes "&&") ≡ some i
    → replace s (codes "&&") (codes "&") ≡ cut i s
unfolding replace
replace-cut s i h =
    rw (replace, h) (one_for_two i 38 s ∙ cut_lem i s (index_of?-starts_with s (codes "&&") i h))

collapse_done : (s : Text) → index_of? s (codes "&&") ≡ none → (collapse s ≡ s) × Single s
unfolding collapse index_of? starts_with
collapse_done [] h = (refl, tt)
collapse_done (c ∷ []) h = ground arith
collapse_done (c ∷ d ∷ s) h =
    let rest = collapse_done (d ∷ s) (ground (arith, h)) in
    let single : ((c == 38) && (d == 38)) ≡ false = ground (arith, h) in
    (rw (single, rest.0) refl, (single, rest.1))

-- With more fuel than the text has letters the loop ends, and it makes every run of "&" one: the result
-- is the text collapsed, which has no two "&" in a row.
pub squeeze-collapse :
    (fuel : ℕ) (s : Text)
    → length s < fuel
    → (squeeze fuel s ≡ some (collapse s)) × Single (collapse s)
unfolding squeeze
squeeze-collapse zero s h = absurd (omega arith)
squeeze-collapse (suc fuel) s h = elim (Option-cases (index_of? s (codes "&&"))) [
  | inl none_left ↦
      let (same, single) = collapse_done s none_left in
      (rw (squeeze, none_left) (ap some (sym same)), rw same single)
  | inr (i, two) ↦
      let starts = index_of?-starts_with s (codes "&&") i two in
      let (result, single) =
        squeeze-collapse fuel (cut i s) (omega (arith, length-cut i s starts, h)) in
      let same = collapse-cut i s starts in
      (rw (squeeze, two, replace-cut s i two) (result ∙ ap some same), rw (← same) single)
]
