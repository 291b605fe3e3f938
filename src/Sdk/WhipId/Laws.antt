-- ===== src/Sdk/WhipId/Laws.antt =====
-- The id of a WHIP session, for descriptions with an ice-ufrag line each.
use go_live_streaming.Base.{
  ℕ, ◌+◌, ◌-◌, ◌≡◌, refl, sym, ◌∙◌, ap, some, [], ◌∷◌, ◌++◌, arith, length, length-append, take,
  drop, take-append, drop-append,
}
use mathlib.Core.List.{append_assoc}
use go_live_streaming.Base.Text.{Text, codes, index_of?}
use go_live_streaming.Base.Split.{index_of?-char, Lacks, Lacks-concat, lacks→Lacks}
use go_live_streaming.Sdk.WhipId.{marker, newline, from_marker, after_marker, up_to, session_id_of}

-- What follows the marker, where it is first found behind `before`.
after_marker_lem :
    (before rest : Text)
    → index_of? (before ++ (marker ++ rest)) marker ≡ some (length before)
    → after_marker (before ++ (marker ++ rest)) ≡ rest
unfolding after_marker
after_marker_lem before rest e =
    ap (λ o. from_marker o (before ++ (marker ++ rest))) e
    ∙ (ap (λ n. drop n (before ++ (marker ++ rest))) (sym (length-append before marker))
        ∙ (ap (drop (length (before ++ marker))) (sym (append_assoc before marker rest))
            ∙ drop-append (before ++ marker) rest))

-- A line up to its end, less as many letters as are dropped.
up_to_lem :
    (s rest : Text) → Lacks 10 s → up_to 0 (index_of? (s ++ 10 ∷ rest) newline) (s ++ 10 ∷ rest) ≡ s
up_to_lem s rest h =
    ap (λ o. up_to 0 o (s ++ 10 ∷ rest)) (index_of?-char 10 s rest h)
    ∙ (ap (λ n. take n (s ++ 10 ∷ rest)) (omega arith) ∙ take-append s (10 ∷ rest))

less_one : (s : Text) (n : ℕ) → length s ≡ n + 1 → length s - 1 ≡ n
less_one s n h = omega arith

up_to_crlf :
    (s rest : Text)
    → Lacks 10 s
    → up_to 1 (index_of? (s ++ 13 ∷ 10 ∷ rest) newline) (s ++ 13 ∷ 10 ∷ rest) ≡ s
up_to_crlf s rest h =
    let t = s ++ 13 ∷ 10 ∷ rest in
    ap (λ o. up_to 1 o t)
      (ap (λ x. index_of? x newline) (sym (append_assoc s (13 ∷ []) (10 ∷ rest)))
        ∙ index_of?-char 10 (s ++ 13 ∷ []) rest
            (Lacks-concat 10 s (13 ∷ []) h (lacks→Lacks 10 (13 ∷ []) refl)))
    ∙ (ap (λ n. take n t) (less_one (s ++ 13 ∷ []) (length s) (length-append s (13 ∷ [])))
        ∙ take-append s (13 ∷ 10 ∷ rest))

up_to_newline : Text → Text
up_to_newline s = up_to 0 (index_of? s newline) s

regroup :
    (u v rest : Text)
    → (u ++ codes ":") ++ (v ++ 13 ∷ rest) ≡ ((u ++ codes ":") ++ (v ++ 13 ∷ [])) ++ rest
regroup u v rest =
    ap (λ x. (u ++ codes ":") ++ x) (sym (append_assoc v (13 ∷ []) rest))
    ∙ sym (append_assoc (u ++ codes ":") (v ++ 13 ∷ []) rest)

-- For an offer and an answer with lines that end in CR LF, each with a first ice-ufrag line: the id is
-- the ufrag of the offer, a colon, the ufrag of the answer, and a carriage return that was not cut.
pub session_id_of_lem :
    (before u rest before' v rest' : Text)
    → index_of? (before ++ (marker ++ (u ++ 13 ∷ 10 ∷ rest))) marker ≡ some (length before)
    → index_of? (before' ++ (marker ++ (v ++ 13 ∷ 10 ∷ rest'))) marker ≡ some (length before')
    → Lacks 10 u
    → Lacks 10 v
    → session_id_of
        (before ++ (marker ++ (u ++ 13 ∷ 10 ∷ rest)))
        (before' ++ (marker ++ (v ++ 13 ∷ 10 ∷ rest')))
      ≡ u ++ (codes ":" ++ (v ++ 13 ∷ []))
unfolding session_id_of up_to_newline
session_id_of_lem before u rest before' v rest' e e' h h' =
    let first = after_marker_lem before (u ++ 13 ∷ 10 ∷ rest) e in
    let second = after_marker_lem before' (v ++ 13 ∷ 10 ∷ rest') e' in
    let id = (u ++ codes ":") ++ (v ++ 13 ∷ []) in
    ap up_to_newline (
      ap (λ x. (x ++ codes ":") ++ after_marker (before' ++ (marker ++ (v ++ 13 ∷ 10 ∷ rest'))))
        (ap (λ x. up_to 1 (index_of? x newline) x) first ∙ up_to_crlf u rest h)
      ∙ (ap (λ x. (u ++ codes ":") ++ x) second ∙ regroup u v (10 ∷ rest')))
    ∙ (up_to_lem id rest' (
          Lacks-concat 10 (u ++ codes ":") (v ++ 13 ∷ [])
            (Lacks-concat 10 u (codes ":") h (lacks→Lacks 10 (codes ":") refl))
            (Lacks-concat 10 v (13 ∷ []) h' (lacks→Lacks 10 (13 ∷ []) refl)))
        ∙ append_assoc u (codes ":") (v ++ 13 ∷ []))
