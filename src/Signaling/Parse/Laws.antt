-- ===== src/Signaling/Parse/Laws.antt =====
-- The query that is left of the location.
use go_live_streaming.Base.{
  ℕ, zero, suc, ◌≡◌, refl, ap, ◌∙◌, true, ◌&&◌, Option, none, some, [], ◌∷◌, ◌++◌, arith, ◌==◌,
  length, take, drop, Option-cases, Bool-cases, inl, inr,
}
use go_live_streaming.Base.Text.{
  Text, codes, starts_with, index_of?, last_index_of?, index_of?-starts_with, replace,
}
use go_live_streaming.Signaling.Parse.{
  Location, Parsed, drop_at, drop_last, tidy, tidy_all, clean, without_data, with_query, read,
  edited, parse, ws_host_of, ws_port_of,
}
use go_live_streaming.Signaling.Parse.Squeeze.{
  Single, starts_and, collapse, cut, one_for_two, squeeze-collapse,
}

Single-take : (n : ℕ) (s : Text) → Single s → Single (take n s)
Single-take zero s h = tt
Single-take (suc n) [] h = tt
Single-take (suc zero) (c ∷ s) h = ground arith
Single-take (suc (suc n)) (c ∷ []) h = h
Single-take (suc (suc n)) (c ∷ d ∷ s) h = (h.0, Single-take (suc n) (d ∷ s) h.1)

drop_last-Single : (s t : Text) → Single s → Single (drop_last s t)
unfolding drop_last
drop_last-Single s t h = at_index (last_index_of? s t)
  where
    at_index : (o : Option ℕ) → Single (drop_at o s)
    at_index none = h
    at_index (some i) = elim (Bool-cases (suc i == length s)) [
      | inl last ↦ rw last (Single-take i s h)
      | inr inner ↦ rw inner h
    ]

starts_mark : (s : Text) → starts_with s (codes "?&") ≡ true → (t : Text) × (s ≡ 63 ∷ 38 ∷ t)
unfolding starts_with
starts_mark [] h = absurd (ground arith)
starts_mark (c ∷ []) h = absurd (ground arith)
starts_mark (c ∷ d ∷ t) h =
    let one : c ≡ 63 = ground arith in let two : d ≡ 38 = ground arith in (t, rw (one, two) refl)

empty_mark : (A : Type 0) → starts_with [] (codes "?&") ≡ true → A
unfolding starts_with
empty_mark A h = absurd (ground arith)

-- The "&" after a "?" is cut out.
mark_cut :
    (i : ℕ) (s : Text)
    → starts_with (drop i s) (codes "?&") ≡ true
    → take i s ++ 63 ∷ drop (suc (suc i)) s ≡ cut (suc i) s
unfolding cut
mark_cut zero s h = let (t, e) = starts_mark s h in rw e refl
mark_cut (suc i) [] h = empty_mark _ h
mark_cut (suc i) (c ∷ s) h = ap (λ t. c ∷ t) (mark_cut i s h)

cut-head :
    (i : ℕ) (s : Text)
    → starts_with (drop i s) (codes "?&") ≡ true
    → starts_and (cut (suc i) s) ≡ starts_and s
unfolding cut
cut-head i [] h = refl
cut-head i (c ∷ s) h = refl

cut-Single :
    (i : ℕ) (s : Text)
    → starts_with (drop i s) (codes "?&") ≡ true
    → Single s
    → Single (cut (suc i) s)
unfolding cut
cut-Single zero s h k = let (t, e) = starts_mark s h in rw e (refl, (rw e at k).1.1)
cut-Single (suc i) [] h k = empty_mark _ h
cut-Single (suc i) (c ∷ s) h k =
    (ap (λ b. (c == 38) && b) (cut-head i s h) ∙ k.0, cut-Single i s h k.1)

replace-Single : (s : Text) → Single s → Single (replace s (codes "?&") (codes "?"))
unfolding replace
replace-Single s k = elim (Option-cases (index_of? s (codes "?&"))) [
  | inl nothing ↦ rw (replace, nothing) k
  | inr (i, e) ↦
      let starts = index_of?-starts_with s (codes "?&") i e in
      rw (replace, e) (rw (one_for_two i 63 s ∙ mark_cut i s starts) (cut-Single i s starts k))
]

tidy-Single : (s : Text) → Single s → Single (tidy s)
unfolding tidy
tidy-Single s h =
    drop_last-Single (drop_last (replace s (codes "?&") (codes "?")) (codes "?")) (codes "&")
      (drop_last-Single (replace s (codes "?&") (codes "?")) (codes "?") (replace-Single s h))

clean_lem : (s : Text) → (clean s ≡ some (tidy (collapse s))) × Single (tidy (collapse s))
unfolding clean
clean_lem s =
    let (result, single) = squeeze-collapse (suc (length s)) s (omega arith) in
    (ap tidy_all result, tidy-Single (collapse s) single)

-- What the query of the result is: none without a query, or else one with no "&&".
abbrev pub QueryOf : Option Text → Option Text → Type 0
QueryOf none none = Unit
QueryOf (some raw) (some query) = Single query
QueryOf _ _ = ⊥

query_lem :
    (ws_host : Text) (ws_port : Option Text) (p : Parsed) (query : Option Text)
    → p.query ≡ query
    → (q : Option Text) × (edited ws_host ws_port p query ≡ some (record p { query = q }))
      × QueryOf query q
unfolding edited
query_lem ws_host ws_port p none e = (none, ap (λ q. some (record p { query = q })) e, tt)
query_lem ws_host ws_port p (some query) e =
    let (result, single) = clean_lem (without_data ws_host ws_port p query) in
    (
      some (tidy (collapse (without_data ws_host ws_port p query))),
      ap (with_query p) result,
      single,
    )

-- For every location the loop ends and a result is returned. All but its query is what was read of the
-- location; there is a query exactly if the location has one, and it has no two "&" in a row.
pub parse_lem :
    (l : Location) (name : Text)
    → (q : Option Text) × (parse l name
        ≡ some (record (read l name (ws_host_of l) (ws_port_of l)) { query = q }))
      × QueryOf (read l name (ws_host_of l) (ws_port_of l)).raw_query q
unfolding parse read
parse_lem l name =
    let p = read l name (ws_host_of l) (ws_port_of l) in
    query_lem (ws_host_of l) (ws_port_of l) p p.query refl
