-- ===== src/Base/Split.antt =====
-- Splitting at a character undoes joining with it.
use mathlib.Core.List.{append_assoc, append-nil}
use go_live_streaming.Base.{
  some, length, ℕ, ◌≡◌, ◌≢◌, refl, sym, ◌∙◌, ap, List, [], ◌∷◌, ◌++◌, arith, ◌==◌, Bool, true, not,
  ◌&&◌, none,
}
use go_live_streaming.Base.Text.{
  Text, split_from, split, join, index_of?, last_index_of?, starts_with,
}

-- The character does not occur.
abbrev pub Lacks : ℕ → Text → Type 0
Lacks c [] = Unit
Lacks c (d ∷ s) = (d ≢ c) × Lacks c s

abbrev pub AllLack : ℕ → List Text → Type 0
AllLack c [] = Unit
AllLack c (s ∷ ss) = Lacks c s × AllLack c ss

abbrev pub lacks : ℕ → Text → Bool
lacks c [] = true
lacks c (d ∷ s) = not (d == c) && lacks c s

pub lacks→Lacks : (c : ℕ) (s : Text) → lacks c s ≡ true → Lacks c s
lacks→Lacks c [] h = tt
lacks→Lacks c (d ∷ s) h = (ground arith, lacks→Lacks c s (ground arith))

split_from-append :
    (c : ℕ) (part s rest : Text)
    → Lacks c s
    → split_from c part (s ++ rest) ≡ split_from c (part ++ s) rest
unfolding split_from
split_from-append c part [] rest h = ap (λ p. split_from c p rest) (sym (append-nil part))
split_from-append c part (d ∷ s) rest h =
    let longer = split_from-append c (part ++ d ∷ []) s rest h.1 in
    let same = ap (λ p. split_from c p rest) (append_assoc part (d ∷ []) s) in
    ground (arith, h.0, longer, same)

split_from_here :
    (c : ℕ) (part rest : Text) → split_from c part (c ∷ rest) ≡ part ∷ split_from c [] rest
unfolding split_from
split_from_here c part rest = ground arith

split_from-join :
    (c : ℕ) (s : Text) (ss : List Text)
    → Lacks c s
    → AllLack c ss
    → split_from c [] (join (s ∷ ss) (c ∷ [])) ≡ s ∷ ss
unfolding join split_from
split_from-join c s [] h k =
    ap (split_from c []) (sym (append-nil s)) ∙ (split_from-append c [] s [] h ∙ last)
  where
    last : split_from c s [] ≡ s ∷ []
    last = refl
split_from-join c s (t ∷ ss) h k =
    split_from-append c [] s (c ∷ join (t ∷ ss) (c ∷ [])) h
    ∙ (split_from_here c s (join (t ∷ ss) (c ∷ []))
        ∙ ap (λ zs. s ∷ zs) (split_from-join c t ss k.0 k.1))

-- Texts that are joined with a character that none of them has are the parts between it.
pub split-join :
    (c : ℕ) (s : Text) (ss : List Text)
    → Lacks c s
    → AllLack c ss
    → split (join (s ∷ ss) (c ∷ [])) c ≡ s ∷ ss
unfolding split
split-join c s ss h k = split_from-join c s ss h k

-- A letter that a text lacks is found behind it.
pub index_of?-char :
    (c : ℕ) (s rest : Text) → Lacks c s → index_of? (s ++ c ∷ rest) (c ∷ []) ≡ some (length s)
unfolding index_of? starts_with
index_of?-char c [] rest h = ground arith
index_of?-char c (d ∷ s) rest h = ground (arith, h.0, index_of?-char c s rest h.1)

pub Lacks-concat : (c : ℕ) (s t : Text) → Lacks c s → Lacks c t → Lacks c (s ++ t)
Lacks-concat c [] t h k = k
Lacks-concat c (d ∷ s) t h k = (h.0, Lacks-concat c s t h.1 k)

pub last_index_of?-Lacks : (c : ℕ) (s : Text) → Lacks c s → last_index_of? s (c ∷ []) ≡ none
unfolding last_index_of? starts_with
last_index_of?-Lacks c [] h = refl
last_index_of?-Lacks c (d ∷ s) h = ground (arith, h.0, last_index_of?-Lacks c s h.1)

-- The last one is found before a text that lacks it.
pub last_index_of?-char :
    (c : ℕ) (u n : Text) → Lacks c n → last_index_of? (u ++ c ∷ n) (c ∷ []) ≡ some (length u)
unfolding last_index_of? starts_with
last_index_of?-char c [] n h = ground (arith, last_index_of?-Lacks c n h)
last_index_of?-char c (d ∷ u) n h = ground (arith, last_index_of?-char c u n h)

pub index_of?-Lacks : (c : ℕ) (s : Text) → Lacks c s → index_of? s (c ∷ []) ≡ none
unfolding index_of? starts_with
index_of?-Lacks c [] h = refl
index_of?-Lacks c (d ∷ s) h = ground (arith, h.0, index_of?-Lacks c s h.1)
