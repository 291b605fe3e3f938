-- ===== src/Console/Streams/Preview.antt =====
-- The preview link of a stream, read by the page that it leads to.
use mathlib.Core.List.{append_assoc}
use mathlib.Core.Path.{subst}
use go_live_streaming.Base.{
  ◌≡◌, ◌≢◌, refl, ap, ◌∙◌, some, [], ◌∷◌, ◌++◌, arith, Option, none, ℕ, Bool, true, ◌&&◌, not, leb,
  ◌==◌, sym,
}
use go_live_streaming.Base.Text.{Text, codes, join, text_eq, replace, split, index_of?}
use go_live_streaming.Base.Split.{
  Lacks, Lacks-concat, lacks, lacks→Lacks, index_of?-Lacks, split-join,
}
use go_live_streaming.Base.Dict.{lookup}
use go_live_streaming.Urls.Query.{
  str, Parsed, Window, fill_query, second, page_query, parse_query_string, uri_object,
}
use go_live_streaming.Urls.Query.Laws.{
  Pairs, query_of, Plain, last_of, fill_query-query_of, Lacks-query,
}
use go_live_streaming.Console.Server.{Server}
use go_live_streaming.Console.Streams.{
  Vhost, Stream, last_port, preview_page, preview_query, sc_filter_preview_url,
}

-- What the link says of the stream and of the server.
abbrev pub preview_pairs : Server → Text → Stream → Pairs
preview_pairs s owner v =
    (codes "vhost", owner)
    ∷ (codes "app", v.app)
    ∷ (codes "stream", v.name ++ codes ".flv")
    ∷ (codes "server", s.host)
    ∷ (codes "port", last_port s.http)
    ∷ (codes "autostart", codes "true")
    ∷ (codes "schema", s.schema)
    ∷ []

preview_query_pairs :
    (s : Server) (owner : Text) (v : Stream)
    → preview_query s owner v ≡ query_of (preview_pairs s owner v)
unfolding preview_query join
preview_query_pairs s owner v = simp append_assoc

-- The letters that a browser leaves in the query of a URL: of ASCII without the controls, the space and
-- the letters " # ' < >
abbrev survives : ℕ → Bool
survives c =
    leb 33 c
    && (leb c 126
        && (not (c == 34)
            && (not (c == 35) && (not (c == 39) && (not (c == 60) && not (c == 62))))))

abbrev pub survive : Text → Bool
survive [] = true
survive (c ∷ t) = survives c && survive t

-- None of the separators of a query, and only letters that a browser leaves there.
abbrev pub IsPlain : Text → Type 0
IsPlain t = Lacks 38 t × (Lacks 61 t × Lacks 63 t) × (survive t ≡ true)

-- The texts of the link are plain.
pub record PlainLink (s : Server) (owner : Text) (v : Stream) : Type 0 where
  pub owner_plain : IsPlain owner
  pub app : IsPlain v.app
  pub name : IsPlain v.name
  pub host : IsPlain s.host
  pub port : IsPlain (last_port s.http)
  pub schema : IsPlain s.schema

abbrev AllPlain : Pairs → Type 0
AllPlain [] = Unit
AllPlain ((k, v) ∷ pairs) = IsPlain k × IsPlain v × AllPlain pairs

AllPlain-Plain : (pairs : Pairs) → AllPlain pairs → Plain pairs
AllPlain-Plain [] h = tt
AllPlain-Plain ((k, v) ∷ pairs) ((a, (b, c), _), (d, (e, f), _), rest) =
    ((a, d), ((b, e), ((c, f), AllPlain-Plain pairs rest)))

IsPlain-survive : (t : Text) → IsPlain t → survive t ≡ true
IsPlain-survive t (a, b, c) = c

survive-append : (s t : Text) → survive s ≡ true → survive t ≡ true → survive (s ++ t) ≡ true
survive-append [] t h k = k
survive-append (c ∷ s) t h k = ground (arith, survive-append s t)

survive-Lacks : (t : Text) → survive t ≡ true → Lacks 32 t
survive-Lacks [] h = tt
survive-Lacks (c ∷ t) h = (ground (arith, h), survive-Lacks t (ground (arith, h)))

pub IsPlain-lacks :
    (t : Text)
    → lacks 38 t ≡ true
    → lacks 61 t ≡ true
    → lacks 63 t ≡ true
    → survive t ≡ true
    → IsPlain t
IsPlain-lacks t a b c d = (lacks→Lacks 38 t a, (lacks→Lacks 61 t b, lacks→Lacks 63 t c), d)

IsPlain-append : (s t : Text) → IsPlain s → IsPlain t → IsPlain (s ++ t)
IsPlain-append s t (a, (b, c), u) (d, (e, f), v) = (
  Lacks-concat 38 s t a d,
  (Lacks-concat 61 s t b e, Lacks-concat 63 s t c f),
  survive-append s t u v,
)

preview_pairs-Plain :
    (s : Server) (owner : Text) (v : Stream) → PlainLink s owner v → Plain (preview_pairs s owner v)
preview_pairs-Plain s owner v h = AllPlain-Plain (preview_pairs s owner v) (
  IsPlain-lacks (codes "vhost") refl refl refl refl,
  h.owner_plain,
  (
    IsPlain-lacks (codes "app") refl refl refl refl,
    h.app,
    (
      IsPlain-lacks (codes "stream") refl refl refl refl,
      IsPlain-append v.name (codes ".flv") h.name
          (IsPlain-lacks (codes ".flv") refl refl refl refl),
      (
        IsPlain-lacks (codes "server") refl refl refl refl,
        h.host,
        (
          IsPlain-lacks (codes "port") refl refl refl refl,
          h.port,
          (
            IsPlain-lacks (codes "autostart") refl refl refl refl,
            IsPlain-lacks (codes "true") refl refl refl refl,
            (IsPlain-lacks (codes "schema") refl refl refl refl, h.schema, tt),
          ),
        ),
      ),
    ),
  ),
)

read_pair :
    (s : Server) (owner : Text) (v : Stream) (obj : Parsed) (key : Text)
    → PlainLink s owner v
    → lookup key (fill_query (preview_query s owner v) obj).user_query
      ≡ last_of key (preview_pairs s owner v)
read_pair s owner v obj key h =
    ap (λ q. lookup key (fill_query q obj).user_query) (preview_query_pairs s owner v)
    ∙ (fill_query-query_of (codes "vhost") owner _ obj key (codes "domain")
        (preview_pairs-Plain s owner v h) domain_vhost).0
  where
    domain_vhost : codes "domain" ≢ codes "vhost"
    domain_vhost = ground arith

-- The query of the link is left as it is.
survive-preview_query :
    (s : Server) (owner : Text) (v : Stream)
    → PlainLink s owner v
    → survive (preview_query s owner v) ≡ true
unfolding preview_query
survive-preview_query s owner v h =
    behind (codes "vhost=") owner _ refl (IsPlain-survive _ h.owner_plain) (
      behind (codes "&app=") v.app _ refl (IsPlain-survive _ h.app) (
        behind (codes "&stream=") v.name _ refl (IsPlain-survive _ h.name) (
          behind (codes ".flv&server=") s.host _ refl (IsPlain-survive _ h.host) (
            behind (codes "&port=") (last_port s.http) _ refl (IsPlain-survive _ h.port) (
              survive-append (codes "&autostart=true&schema=") s.schema refl
                (IsPlain-survive _ h.schema))))))
  where
    behind :
        (key t rest : Text)
        → survive key ≡ true
        → survive t ≡ true
        → survive rest ≡ true
        → survive (key ++ (t ++ rest)) ≡ true
    behind key t rest a b c = survive-append key (t ++ rest) a (survive-append t rest b c)

-- What is read of `location.search`.
searched : Text → Option Text
unfolding replace
searched t = second (split (replace t (codes " ") []) 63)

searched-query : (q : Text) → Lacks 32 q → Lacks 63 q → searched (codes "?" ++ q) ≡ some q
unfolding searched replace join
searched-query q blank mark =
    let none_blank : index_of? (codes "?" ++ q) (codes " ") ≡ none =
      index_of?-Lacks 32 (codes "?" ++ q) (ground arith, blank) in
    let same : replace (codes "?" ++ q) (codes " ") [] ≡ codes "?" ++ q =
      ground (arith, none_blank) in
    let parts : split (codes "?" ++ q) 63 ≡ [] ∷ q ∷ [] = split-join 63 [] (q ∷ []) tt (mark, tt) in
    ap (λ t. second (split t 63)) same ∙ ap second parts

-- The page reads the query behind the mark.
page_query-search :
    (w : Window) (q : Text)
    → w.search ≡ codes "?" ++ q
    → Lacks 32 q
    → Lacks 63 q
    → page_query w ≡ some q
unfolding page_query searched
page_query-search w q e blank mark =
    let seen = ap searched e ∙ searched-query q blank mark in
    ap
      (λ (o : Option Text). elim o [
        | some r ↦ some r
        | none ↦ second (split (replace w.hash (codes " ") []) 35)
      ])
      seen

parse-search :
    (w : Window) (q : Text)
    → w.search ≡ codes "?" ++ q
    → Lacks 32 q
    → Lacks 63 q
    → parse_query_string w ≡ fill_query q (record { fields = uri_object w; user_query = [] })
unfolding parse_query_string
parse-search w q e blank mark =
    let obj : Parsed = record { fields = uri_object w; user_query = [] } in
    ap (λ (o : Option Text). elim o [ none ↦ obj | some r ↦ fill_query r obj ])
      (page_query-search w q e blank mark)

-- For a stream with an owner, where the texts of the link have only letters that a browser leaves in a
-- query and none of "&", "=" and "?", and a browser whose `location.search` is the query of the
-- player's page as it stands in the URL if it has only such letters: the stream has a link, and the
-- page that it opens reads from its location the owner's name, the app, the name with ".flv", the host
-- and the schema of the console's server, and the last of its ports for http.
pub preview_url-parse :
    (s : Server) (v : Stream) (vhost : Vhost) (browse : Text → Window)
    → v.owner ≡ some vhost
    → PlainLink s vhost.name v
    → ((q : Text)
        → survive q ≡ true
        → (browse (preview_page s ++ (codes "?" ++ q))).search ≡ codes "?" ++ q)
    → (url : Text) × (sc_filter_preview_url s (some v) ≡ some url)
      × (lookup (codes "vhost") (parse_query_string (browse url)).user_query
          ≡ some (str vhost.name))
      × (lookup (codes "app") (parse_query_string (browse url)).user_query ≡ some (str v.app))
      × (lookup (codes "stream") (parse_query_string (browse url)).user_query
          ≡ some (str (v.name ++ codes ".flv")))
      × (lookup (codes "server") (parse_query_string (browse url)).user_query ≡ some (str s.host))
      × (lookup (codes "port") (parse_query_string (browse url)).user_query
          ≡ some (str (last_port s.http)))
      × (lookup (codes "schema") (parse_query_string (browse url)).user_query ≡ some (str s.schema))
unfolding last_of text_eq
preview_url-parse s v vhost browse e h left =
    let q = preview_query s vhost.name v in
    let url = preview_page s ++ (codes "?" ++ q) in
    let w = browse url in
    let kept = survive-preview_query s vhost.name v h in
    let mark =
      subst (Lacks 63) (sym (preview_query_pairs s vhost.name v))
        (Lacks-query (preview_pairs s vhost.name v) (preview_pairs-Plain s vhost.name v h)) in
    let seen = parse-search w q (left q kept) (survive-Lacks q kept) mark in
    let obj : Parsed = record { fields = uri_object w; user_query = [] } in
    let read = λ (key : Text).
      ap (λ o. lookup key (Parsed.user_query o)) seen ∙ read_pair s vhost.name v obj key h in
    (
      url,
      unfold sc_filter_preview_url in rw (sc_filter_preview_url, e) refl,
      read (codes "vhost"),
      read (codes "app"),
      read (codes "stream"),
      read (codes "server"),
      read (codes "port"),
      read (codes "schema"),
    )
