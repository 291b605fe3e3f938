-- ===== src/Base/Text.antt =====
-- JavaScript strings as lists of character codes, with the methods of String.prototype that the
-- console, the players and the signalling code call. An index of -1 is `none`.
use Prim.Native.Nat.{ℕ, zero, suc, ◌+◌, ◌-◌, min, max}
use Prim.Native.Char.{code}
use Prim.Native.String.{String}
use mathlib.Core.Path.{◌≡◌, refl, ap₂}
use mathlib.Core.Logic.{◌↔◌}
use mathlib.Core.Bool.{Bool, true, false, ◌&&◌}
use mathlib.Core.List.{List, [], ◌∷◌, ◌++◌}
use mathlib.Core.Option
use mathlib.Core.Option.{Option, none, some}
use native.Mathlib.Omega.{arith}
use go_live_streaming.Base.Tests.{◌==◌, if◌then◌else◌}
use go_live_streaming.Base.Lists.{length, take, drop}

abbrev pub Text : Type 0
Text = List ℕ

-- A literal of the source.
abbrev pub codes : String → Text
codes String.[] = []
codes (String.◌∷◌ c s) = code c ∷ codes s

-- `s === t`
unfoldable pub text_eq : Text → Text → Bool
text_eq [] [] = true
text_eq (c ∷ s) (d ∷ t) = c == d && text_eq s t
text_eq _ _ = false

-- `s.startsWith(t)`
unfoldable pub starts_with : Text → Text → Bool
starts_with s [] = true
starts_with [] (d ∷ t) = false
starts_with (c ∷ s) (d ∷ t) = c == d && starts_with s t

-- `s.indexOf(t)`
unfoldable pub index_of? : Text → Text → Option ℕ
index_of? [] t = if starts_with [] t then some 0 else none
index_of? (c ∷ s) t = if starts_with (c ∷ s) t then some 0 else Option.map suc (index_of? s t)

-- `s.lastIndexOf(t)`
unfoldable pub last_index_of? : Text → Text → Option ℕ
last_index_of? [] t = if starts_with [] t then some 0 else none
last_index_of? (c ∷ s) t = elim (last_index_of? s t) [
  | some i ↦ some (suc i)
  | none ↦ if starts_with (c ∷ s) t then some 0 else none
]

-- `s.slice(a, b)`, for indices that are not negative
abbrev pub slice : Text → ℕ → ℕ → Text
slice s a b = take (b - a) (drop a s)

-- `s.substring(a, b)`: the two indices are swapped if they are out of order
abbrev pub substring : Text → ℕ → ℕ → Text
substring s a b = slice s (min a b) (max a b)

-- `s.replace(t, r)` at the first occurrence of the text t
unfoldable pub replace : Text → Text → Text → Text
unfolding index_of?
replace s t r = elim (index_of? s t) [ none ↦ s | some i ↦ take i s ++ r ++ drop (i + length t) s ]

-- `s.split(sep)` for a separator of one character, over the part that is read
unfoldable pub split_from : ℕ → Text → Text → List Text
split_from sep part [] = part ∷ []
split_from sep part (c ∷ s) =
    let closed = part ∷ split_from sep [] s in
    let longer = split_from sep (part ++ c ∷ []) s in if c == sep then closed else longer

unfoldable pub split : Text → ℕ → List Text
unfolding split_from
split s sep = split_from sep [] s

-- `parts.join(sep)`
unfoldable pub join : List Text → Text → Text
join [] sep = []
join (part ∷ []) sep = part
join (part ∷ next ∷ parts) sep = part ++ (sep ++ join (next ∷ parts) sep)

abbrev pub is_empty {ℓ} : {A : Type ℓ} → List A → Bool
is_empty [] = true
is_empty (_ ∷ _) = false

pub text_eq_refl : (s : Text) → text_eq s s ≡ true
unfolding text_eq
text_eq_refl [] = refl
text_eq_refl (c ∷ s) = ground (arith, text_eq_refl s)

pub text_eq→eq : (s t : Text) → text_eq s t ≡ true → s ≡ t
unfolding text_eq
text_eq→eq [] [] h = refl
text_eq→eq [] (d ∷ t) h = cc
text_eq→eq (c ∷ s) [] h = cc
text_eq→eq (c ∷ s) (d ∷ t) h =
    let same : c ≡ d = ground arith in
    let rest : text_eq s t ≡ true = ground arith in ap₂ ◌∷◌ same (text_eq→eq s t rest)

pub text_eq_iff : (s t : Text) → (text_eq s t ≡ true) ↔ (s ≡ t)
text_eq_iff s t = (text_eq→eq s t, λ e. rw e (text_eq_refl t))

pub starts_with→eq : (s t : Text) → starts_with s t ≡ true → s ≡ t ++ drop (length t) s
unfolding starts_with
starts_with→eq s [] h = refl
starts_with→eq [] (d ∷ t) h = cc
starts_with→eq (c ∷ s) (d ∷ t) h =
    let same : c ≡ d = ground arith in
    let rest : starts_with s t ≡ true = ground arith in ap₂ ◌∷◌ same (starts_with→eq s t rest)

pub starts_with-append : (t s : Text) → starts_with (t ++ s) t ≡ true
unfolding starts_with
starts_with-append [] s = refl
starts_with-append (c ∷ t) s = ground (arith, starts_with-append t s)

-- The text from an index that was found starts with what was looked for.
pub index_of?-starts_with :
    (s t : Text) (i : ℕ) → index_of? s t ≡ some i → starts_with (drop i s) t ≡ true
unfolding index_of?
index_of?-starts_with [] t i h = ground arith
index_of?-starts_with (c ∷ s) t zero h = ground arith
index_of?-starts_with (c ∷ s) t (suc i) h = ground (arith, index_of?-starts_with s t i)

pub index_of?-append : (s t : Text) → index_of? (t ++ s) t ≡ some 0
unfolding index_of? starts_with
index_of?-append [] [] = refl
index_of?-append (c ∷ s) [] = refl
index_of?-append s (d ∷ t) = ground (arith, starts_with-append (d ∷ t) s)

pub last_index_of?-starts_with :
    (s t : Text) (i : ℕ) → last_index_of? s t ≡ some i → starts_with (drop i s) t ≡ true
unfolding last_index_of?
last_index_of?-starts_with [] t i h = ground arith
last_index_of?-starts_with (c ∷ s) t zero h = ground arith
last_index_of?-starts_with (c ∷ s) t (suc i) h = ground (arith, last_index_of?-starts_with s t i)
