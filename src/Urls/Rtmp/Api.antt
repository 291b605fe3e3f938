-- ===== src/Urls/Rtmp/Api.antt =====
-- The URL of the API that the SDK calls.
use go_live_streaming.Base.{
  ℕ, suc, ◌+◌, ◌≤◌, ◌≡◌, sym, ◌∙◌, ap, false, some, [], ◌∷◌, ◌++◌, arith, length, length-append,
  take, take-append, drop-append, drop,
}
use mathlib.Core.List.{append_assoc}
use go_live_streaming.Base.Text.{Text, codes, starts_with, index_of?, index_of?-append, replace}
use go_live_streaming.Base.Dict.{lookup}
use go_live_streaming.Base.Split.{Lacks}
use go_live_streaming.Urls.Query.{Window, str, or_else, truthy}
use go_live_streaming.Urls.Rtmp.{
  Anchor, Prepared, get, print, extra_queries, with_slash, prepare_url,
}

-- A text that ends with a letter that the other lacks is not found at its start.
starts_with-Lacks :
    (c : ℕ) (api u v : Text)
    → Lacks c u
    → suc (length api) ≤ length u
    → starts_with (u ++ v) (api ++ c ∷ []) ≡ false
unfolding starts_with
starts_with-Lacks c api [] v h n = absurd (omega arith)
starts_with-Lacks c [] (d ∷ u) v h n = ground (arith, h.0)
starts_with-Lacks c (e ∷ api) (d ∷ u) v h n =
    ground (arith, starts_with-Lacks c api u v h.1 (omega arith))

length-append_suc : (p api : Text) → suc (length api) ≤ suc (length (p ++ api))
length-append_suc [] api = omega arith
length-append_suc (d ∷ p) api = ground (arith, length-append_suc p api)

index_of?-first :
    (c : ℕ) (p api rest : Text)
    → Lacks c (p ++ api)
    → index_of? ((p ++ api) ++ c ∷ rest) (api ++ c ∷ []) ≡ some (length p)
unfolding index_of?
index_of?-first c [] api rest h =
    ap (λ s. index_of? s (api ++ c ∷ [])) (sym (append_assoc api (c ∷ []) rest))
    ∙ index_of?-append rest (api ++ c ∷ [])
index_of?-first c (d ∷ p) api rest h = ground (
  arith,
  starts_with-Lacks c api (d ∷ (p ++ api)) (c ∷ rest) h (length-append_suc p api),
  index_of?-first c p api rest h.1,
)

replace_at :
    (s t r : Text) (i : ℕ)
    → index_of? s t ≡ some i
    → replace s t r ≡ (take i s ++ r) ++ drop (i + length t) s
unfolding replace
replace_at s t r i e = ground (arith, e)

regroup : (p a b rest : Text) → (p ++ (a ++ b)) ++ rest ≡ p ++ (a ++ (b ++ rest))
regroup p a b rest = append_assoc p (a ++ b) rest ∙ ap (λ u. p ++ u) (append_assoc a b rest)

drop-api :
    (p api rest : Text) (c : ℕ)
    → drop (length p + length (api ++ c ∷ [])) ((p ++ api) ++ c ∷ rest) ≡ rest
drop-api p api rest c =
    ap (λ n. drop n ((p ++ api) ++ c ∷ rest)) (sym (length-append p (api ++ c ∷ [])))
    ∙ (ap (drop (length (p ++ (api ++ c ∷ []))))
          (append_assoc p api (c ∷ rest) ∙ sym (regroup p api (c ∷ []) rest))
        ∙ drop-append (p ++ (api ++ c ∷ [])) rest)

-- Replacing the first occurrence of the path with its "&" by the path with a "?".
replace-api :
    (p api rest : Text)
    → Lacks 38 (p ++ api)
    → replace ((p ++ api) ++ 38 ∷ rest) (api ++ 38 ∷ []) (api ++ 63 ∷ []) ≡ p ++ (api ++ 63 ∷ rest)
replace-api p api rest h =
    let s = (p ++ api) ++ 38 ∷ rest in
    let head =
      ap (take (length p)) (append_assoc p api (38 ∷ rest)) ∙ take-append p (api ++ 38 ∷ rest) in
    replace_at s (api ++ 38 ∷ []) (api ++ 63 ∷ []) (length p) (index_of?-first 38 p api rest h)
    ∙ (ap (λ u. (u ++ (api ++ 63 ∷ [])) ++ drop (length p + length (api ++ 38 ∷ [])) s) head
        ∙ (ap (λ u. (p ++ (api ++ 63 ∷ [])) ++ u) (drop-api p api rest 38)
            ∙ regroup p api (63 ∷ []) rest))

-- The URL before its path, and the path, of what `prepareUrl` returns.
abbrev pub base_of : Prepared → Text
base_of r =
    r.schema
    ++ (codes "//" ++ (get (codes "server") r.url_object.fields ++ (codes ":" ++ print r.port)))

abbrev pub path_of : Text → Prepared → Text
path_of default_path r =
    with_slash
      (print (or_else (truthy (lookup (codes "play") r.url_object.user_query)) (str default_path)))

start_shape :
    (schema server port api : Text)
    → schema ++ (codes "//" ++ (server ++ (codes ":" ++ (port ++ api))))
      ≡ (schema ++ (codes "//" ++ (server ++ (codes ":" ++ port)))) ++ api
start_shape schema server port api = sym (
    append_assoc schema (codes "//" ++ (server ++ (codes ":" ++ port))) api
    ∙ ap (λ u. schema ++ (codes "//" ++ u)) (append_assoc server (codes ":" ++ port) api))

-- If the URL of the stream has a parameter besides "api" and "play", and neither the address nor the
-- path of the API has an "&", then the URL of the API is the address, the path, a "?" and the
-- parameters.
pub prepare_url-api_url :
    (anchor : Text → Anchor) (w : Window) (default_path url rest : Text)
    → extra_queries (prepare_url anchor w default_path url).url_object.user_query ≡ 38 ∷ rest
    → Lacks 38 (
        base_of (prepare_url anchor w default_path url)
        ++ path_of default_path (prepare_url anchor w default_path url))
    → (prepare_url anchor w default_path url).api_url
      ≡ base_of (prepare_url anchor w default_path url)
        ++ (path_of default_path (prepare_url anchor w default_path url) ++ 63 ∷ rest)
unfolding prepare_url
prepare_url-api_url anchor w default_path url rest e h =
    let r = prepare_url anchor w default_path url in
    let api = path_of default_path r in
    ap
      (λ q.
        replace
          ((r.schema
              ++ (codes "//"
                  ++ (get (codes "server") r.url_object.fields
                      ++ (codes ":" ++ (print r.port ++ api)))))
            ++ q)
          (api ++ codes "&") (api ++ codes "?"))
      e
    ∙ (ap (λ s. replace (s ++ 38 ∷ rest) (api ++ codes "&") (api ++ codes "?"))
          (start_shape r.schema (get (codes "server") r.url_object.fields) (print r.port) api)
        ∙ replace-api (base_of r) api rest h)
