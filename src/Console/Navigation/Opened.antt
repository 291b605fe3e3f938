-- ===== src/Console/Navigation/Opened.antt =====
-- The page that is opened, and the server that it connects to.
use mathlib.Core.List.{append_assoc}
use mathlib.Core.Path.{ap₂}
use go_live_streaming.Base.{
  ℕ, zero, suc, ◌+◌, ◌≤◌, ◌≡◌, ◌≢◌, refl, ap, ◌∙◌, sym, true, some, List, [], ◌∷◌, ◌++◌, arith,
  length, drop, take-append, drop-append, length-append,
}
use go_live_streaming.Base.Text.{Text, codes, index_of?, starts_with, replace, join}
use go_live_streaming.Console.Logs.{Log}
use go_live_streaming.Console.Polling.{responds}
use go_live_streaming.Console.Server.{
  Location, Server, port_text, init, nav_query, queries_of, build_nav_url, without_query,
}
use go_live_streaming.Console.Server.Laws.{init-nav_query}
use go_live_streaming.Console.Navigation.{Place, Form, goto, connect, on_versions}

starts_with-longer : (s t r : Text) → length t ≤ length s → starts_with (s ++ r) t ≡ starts_with s t
unfolding starts_with
starts_with-longer s [] r h = refl
starts_with-longer [] (d ∷ t) r h = absurd (omega arith)
starts_with-longer (c ∷ s) (d ∷ t) r h = ground (arith, starts_with-longer s t r (omega arith))

starts_with-length : (s t : Text) → starts_with s t ≡ true → length t ≤ length s
unfolding starts_with
starts_with-length s [] h = omega arith
starts_with-length [] (d ∷ t) h = absurd (ground arith)
starts_with-length (c ∷ s) (d ∷ t) h =
    let rest : starts_with s t ≡ true = ground (arith, h) in
    omega (arith, starts_with-length s t rest)

index_of?-length : (s t : Text) (i : ℕ) → index_of? s t ≡ some i → i + length t ≤ length s
unfolding index_of?
index_of?-length [] t i h = ground (arith, h, starts_with-length [] t)
index_of?-length (c ∷ s) t zero h = ground (arith, h, starts_with-length (c ∷ s) t)
index_of?-length (c ∷ s) t (suc i) h = ground (arith, h, index_of?-length s t i)

-- What is behind a text does not move what is found in it.
index_of?-longer : (s t r : Text) (i : ℕ) → index_of? s t ≡ some i → index_of? (s ++ r) t ≡ some i
unfolding index_of? starts_with
index_of?-longer [] [] [] i h = h
index_of?-longer [] [] (e ∷ r) i h = h
index_of?-longer [] (d ∷ t) r i h = absurd (ground arith)
index_of?-longer (c ∷ s) t r zero h =
    ground (arith, h, starts_with-longer (c ∷ s) t r, starts_with-length (c ∷ s) t)
index_of?-longer (c ∷ s) t r (suc i) h =
    let later : index_of? s t ≡ some i = unfold index_of? in ground (arith, h) in
    let long = index_of?-length (c ∷ s) t (suc i) h in
    let enough : length t ≤ length (c ∷ s) = omega (arith, long) in
    ground (arith, h, index_of?-longer s t r i later, starts_with-longer (c ∷ s) t r enough)

-- Where a text that is first found at the end of another is replaced.
replace_at_end :
    (base t rest new : Text)
    → index_of? (base ++ t) t ≡ some (length base)
    → replace ((base ++ t) ++ rest) t new ≡ base ++ (new ++ rest)
replace_at_end base t rest new h =
    unfold replace in
    rw (replace, index_of?-longer (base ++ t) t rest (length base) h)
      (simp append_assoc (
        ap₂ (λ a b. a ++ (new ++ b)) (take-append base (t ++ rest))
          (ap (λ n. drop n (base ++ (t ++ rest))) (sym (length-append base t))
            ∙ (ap (drop (length (base ++ t))) (sym (append_assoc base t rest))
                ∙ drop-append (base ++ t) rest))))

goto_lem :
    (s : Server) (place : Place) (base path : Text)
    → without_query place.location.abs_url ≡ base ++ place.path
    → index_of? (base ++ place.path) place.path ≡ some (length base)
    → goto s place path
      ≡ base ++ (path ++ (codes "?" ++ join (queries_of (nav_query s place.location)) (codes "&")))
unfolding goto build_nav_url
goto_lem s place base path url found =
    ap
      (λ u.
        replace (u ++ (codes "?" ++ join (queries_of (nav_query s place.location)) (codes "&")))
          place.path path)
      url
    ∙ replace_at_end base place.path _ path found

other_key : (codes "x" ≢ codes "schema") × (codes "x" ≢ codes "host") × (codes "x" ≢ codes "port")
other_key = (ground arith, ground arith, ground arith)

-- Where the console's URL, less its query, ends in the path of the page and has it nowhere before:
-- when the user has connected to another server, and this answers, the window goes to the same URL
-- with the path of the summaries and a query; and the console that opens there, if the query is read
-- as it was made, is connected to the server of the form.
pub connect-init :
    (form : Form) (s before : Server) (place : Place) (there : Location) (base version : Text)
    (status now : ℕ) (logs : List Log)
    → form.schema ≢ []
    → form.ip ≢ []
    → port_text form.port ≢ []
    → without_query place.location.abs_url ≡ base ++ place.path
    → index_of? (base ++ place.path) place.path ≡ some (length base)
    → there.search ≡ nav_query (connect form s).0 place.location
    → ((on_versions form (connect form s).0 place (responds status 0 version) now logs).1
        ≡ some (
            base
            ++ (codes "/summaries"
                ++ (codes "?"
                    ++ join
                        (queries_of (nav_query (connect form s).0 place.location))
                        (codes "&")))))
      × ((init there before).schema ≡ form.schema)
      × ((init there before).host ≡ form.ip)
      × (port_text (init there before).port ≡ port_text form.port)
unfolding on_versions connect
connect-init form s before place there base version status now logs a b c url found search =
    let s' = (connect form s).0 in
    let (schema, host, port, _) =
      init-nav_query s' before place.location there (codes "x") a b c search other_key.0 other_key.1
        other_key.2 in
    (ap some (goto_lem s' place base (codes "/summaries") url found), schema, host, port)
