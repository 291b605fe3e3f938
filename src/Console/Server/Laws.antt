-- ===== src/Console/Server/Laws.antt =====
-- The server of the console survives a navigation.
use go_live_streaming.Base.{◌≡◌, ◌≢◌, refl, ◌∙◌, ap, some, List, [], ◌∷◌, ◌++◌, arith}
use go_live_streaming.Base.Text.{Text, codes, text_eq, text_eq_iff, split, join}
use go_live_streaming.Base.Split.{AllLack, split-join}
use go_live_streaming.Base.Dict.{lookup, lookup-assign}
use go_live_streaming.Console.Server.{
  one, Location, port_text, Server, init, nav_query, queries_of, build_nav_url, port_of,
  without_query, truthy, or_else,
}

module _ (s : Server) (loc : Location) where
  nav_query-schema : lookup (codes "schema") (nav_query s loc) ≡ some (one s.schema)
  unfolding nav_query text_eq
  nav_query-schema = simp lookup-assign

  nav_query-host : lookup (codes "host") (nav_query s loc) ≡ some (one s.host)
  unfolding nav_query text_eq
  nav_query-host = simp lookup-assign

  nav_query-port : lookup (codes "port") (nav_query s loc) ≡ some (one (port_text s.port))
  unfolding nav_query text_eq
  nav_query-port = simp lookup-assign

  nav_query-other :
      (key : Text)
      → key ≢ codes "schema"
      → key ≢ codes "host"
      → key ≢ codes "port"
      → lookup key (nav_query s loc) ≡ lookup key loc.search
  unfolding nav_query
  nav_query-other key a b c = simp lookup-assign (
      ground (
        arith,
        text_eq_iff (codes "port") key,
        text_eq_iff (codes "host") key,
        text_eq_iff (codes "schema") key,
      ))

truthy-one : (t : Text) → t ≢ [] → truthy (some (one t)) ≡ some t
truthy-one [] h = absurd (h refl)
truthy-one (c ∷ t) h = refl

-- A page that opens with the query that `buildNavUrl` made connects to the same server: it has the
-- schema, the host and the port, none of them empty, of the page before, and the query keeps the values
-- of the other keys.
pub init-nav_query :
    (s before : Server) (loc there : Location) (key : Text)
    → s.schema ≢ []
    → s.host ≢ []
    → port_text s.port ≢ []
    → there.search ≡ nav_query s loc
    → key ≢ codes "schema"
    → key ≢ codes "host"
    → key ≢ codes "port"
    → ((init there before).schema ≡ s.schema)
      × ((init there before).host ≡ s.host)
      × (port_text (init there before).port ≡ port_text s.port)
      × (lookup key there.search ≡ lookup key loc.search)
unfolding init
init-nav_query s before loc there key a b c e ka kb kc = (
  ap (λ d. or_else (truthy (lookup (codes "schema") d)) there.protocol) e
      ∙ (ap (λ o. or_else (truthy o) there.protocol) (nav_query-schema s loc)
          ∙ ap (λ o. or_else o there.protocol) (truthy-one s.schema a)),
  ap (λ d. or_else (truthy (lookup (codes "host") d)) there.host) e
      ∙ (ap (λ o. or_else (truthy o) there.host) (nav_query-host s loc)
          ∙ ap (λ o. or_else o there.host) (truthy-one s.host b)),
  ap (λ d. port_text (port_of (truthy (lookup (codes "port") d)) there.port)) e
      ∙ (ap (λ o. port_text (port_of (truthy o) there.port)) (nav_query-port s loc)
          ∙ ap (λ o. port_text (port_of o there.port)) (truthy-one (port_text s.port) c)),
  ap (lookup key) e ∙ nav_query-other s loc key ka kb kc,
)

-- The query of the url comes apart into its pairs, if no pair has an ampersand.
pub build_nav_url-split :
    (s : Server) (loc : Location) (q : Text) (qs : List Text)
    → queries_of (nav_query s loc) ≡ q ∷ qs
    → AllLack 38 (q ∷ qs)
    → (query : Text) × (build_nav_url s loc ≡ without_query loc.abs_url ++ (codes "?" ++ query))
      × (split query 38 ≡ queries_of (nav_query s loc))
unfolding build_nav_url
build_nav_url-split s loc q qs e h =
    (join (queries_of (nav_query s loc)) (codes "&"), refl, rw e (split-join 38 q qs h.0 h.1))
