-- ===== src/Urls/Offered/RoundTrip.antt =====
-- What a player page offers (srs.page.js) and the SDK reads (srs.sdk.js), from end to end.
use mathlib.Core.Path.{subst}
use mathlib.Core.List.{append_assoc, append-nil}
use go_live_streaming.Base.{
  ℕ, Bool, Option, ◌≡◌, ◌≢◌, refl, sym, ap, ◌∙◌, true, false, some, none, [], ◌∷◌, ◌++◌, arith,
  length,
}
use go_live_streaming.Base.Text.{Text, codes, text_eq, is_empty, join}
use go_live_streaming.Base.Split.{Lacks, Lacks-concat, lacks→Lacks}
use go_live_streaming.Base.Dict.{lookup, lookup-assign}
use go_live_streaming.Urls.Query.{Value, str, Parsed, Window, truthy, fill_query, number}
use go_live_streaming.Urls.Query.Laws.{
  Pairs, Plain, query_of, last_of, or_value, Lacks-query, query_of-nonempty, fill_query-query_of,
}
use go_live_streaming.Urls.Rtmp.{
  Anchor, http_url, schema_of, url_fields, fix_port, fix_missing, is_rtc, rtc_port, webrtc_port,
  parse,
}
use go_live_streaming.Urls.Page.{
  field_or, api_port, rtc_uri, strip_last, build_default_rtc_url, reserved,
}
use go_live_streaming.Urls.Offered.{
  NoSchema, Reads, Unqueried, http_url-webrtc, url_fields-server, url_fields-app, url_fields-stream,
  strip_mark, strip_end,
}
use go_live_streaming.Urls.Offered.Queries.{
  offered_pairs, offered_pairs-query_of, last_of-offered_pairs, fill_query-mark,
}

-- A query that is not empty, with its "?".
abbrev pub marked : Text → Text
marked [] = []
marked (c ∷ q) = 63 ∷ c ∷ q

-- The server, its port, the app and the stream.
abbrev pub address : Text → Text → Text → Text → Text
address server port app stream = server ++ (port ++ (codes "/" ++ (app ++ (codes "/" ++ stream))))

address-append :
    (server port app stream t : Text)
    → server ++ (port ++ (codes "/" ++ (app ++ (codes "/" ++ (stream ++ t)))))
      ≡ address server port app stream ++ t
address-append server port app stream t = sym (
    append_assoc server (port ++ (47 ∷ (app ++ (47 ∷ stream)))) t
    ∙ ap (λ u. server ++ u)
        (append_assoc port (47 ∷ (app ++ (47 ∷ stream))) t
          ∙ ap (λ u. port ++ (47 ∷ u)) (append_assoc app (47 ∷ stream) t)))

marked-nonempty : (q : Text) → is_empty q ≡ false → marked q ≡ 63 ∷ q
marked-nonempty [] h = absurd (ground (arith, h))
marked-nonempty (c ∷ q) h = refl

-- The loop of the page takes off the "?" of an empty query only.
strip_query :
    (uri : Text) (pairs : Pairs)
    → Lacks 63 uri
    → Plain pairs
    → strip_last
        (length (119 ∷ uri ++ 63 ∷ query_of pairs))
        (codes "?")
        (119 ∷ uri ++ 63 ∷ query_of pairs)
      ≡ 119 ∷ uri ++ marked (query_of pairs)
unfolding join
strip_query uri [] h p = strip_end uri 119 (ground arith, h) ∙ sym (append-nil (119 ∷ uri))
strip_query uri ((k, v) ∷ pairs) h p =
    strip_mark (119 ∷ uri) (query_of ((k, v) ∷ pairs)) (query_of-nonempty k v pairs)
      (Lacks-query ((k, v) ∷ pairs) p)
    ∙ ap (λ q. 119 ∷ uri ++ q)
        (sym (marked-nonempty (query_of ((k, v) ∷ pairs)) (query_of-nonempty k v pairs)))

fill_query-marked :
    (k v : Text) (pairs : Pairs) (obj : Parsed)
    → Plain ((k, v) ∷ pairs)
    → fill_query (marked (query_of ((k, v) ∷ pairs))) obj
      ≡ fill_query (query_of ((k, v) ∷ pairs)) obj
fill_query-marked k v pairs obj p =
    let e = query_of-nonempty k v pairs in
    ap (λ q. fill_query q obj) (marked-nonempty (query_of ((k, v) ∷ pairs)) e)
    ∙ fill_query-mark (query_of ((k, v) ∷ pairs)) obj (Lacks-query ((k, v) ∷ pairs) p) e

-- A field that the query does not name is kept.
fill_query-kept :
    (pairs : Pairs) (obj : Parsed) (key : Text)
    → Plain pairs
    → key ≢ codes "vhost"
    → last_of key pairs ≡ none
    → lookup key (fill_query (marked (query_of pairs)) obj).fields ≡ lookup key obj.fields
unfolding fill_query join
fill_query-kept [] obj key p ne h = refl
fill_query-kept ((k, v) ∷ pairs) obj key p ne h =
    ap (λ o. lookup key o.fields) (fill_query-marked k v pairs obj p)
    ∙ ((fill_query-query_of k v pairs obj key key p ne).1
        ∙ ap (λ o. or_value o (lookup key obj.fields)) h)

fill_query-user :
    (pairs : Pairs) (obj : Parsed) (key : Text)
    → Plain pairs
    → lookup key (fill_query (marked (query_of pairs)) obj).user_query ≡ last_of key pairs
unfolding fill_query join last_of lookup
fill_query-user [] obj key p = refl
fill_query-user ((k, v) ∷ pairs) obj key p =
    ap (λ o. lookup key o.user_query) (fill_query-marked k v pairs obj p)
    ∙ (fill_query-query_of k v pairs obj key (codes "url") p (ground arith)).0

fix_missing-kept :
    (o : Option Value) (rtc : Bool) (n : ℕ) (ret : Parsed) (key : Text)
    → text_eq (codes "port") key ≡ false
    → (lookup key (fix_missing o rtc n ret).fields ≡ lookup key ret.fields)
      × ((fix_missing o rtc n ret).user_query ≡ ret.user_query)
fix_missing-kept (some p) rtc n ret key h = (refl, refl)
fix_missing-kept none false n ret key h = (refl, refl)
fix_missing-kept none true n ret key h =
    (lookup-assign (codes "port") key (number n) ret.fields ∙ rw h refl, refl)

fix_port-kept :
    (schema : Text) (w : Window) (n : ℕ) (ret : Parsed) (key : Text)
    → text_eq (codes "port") key ≡ false
    → (lookup key (fix_port schema w n ret).fields ≡ lookup key ret.fields)
      × ((fix_port schema w n ret).user_query ≡ ret.user_query)
unfolding fix_port
fix_port-kept schema w n ret key h =
    fix_missing-kept (truthy (lookup (codes "port") ret.fields)) (is_rtc schema)
      (webrtc_port w n ret) ret key h

module _ (w : Window) (query : Parsed) where
  -- The parts of the URL that a page offers.
  abbrev pub offered_server : Text
  offered_server = field_or (codes "server") w.hostname query

  abbrev pub offered_app : Text
  offered_app = field_or (codes "app") (codes "live") query

  abbrev pub offered_stream : Text
  offered_stream = field_or (codes "stream") (codes "livestream") query

  abbrev pub offered_address : Text
  offered_address =
      address offered_server (api_port (truthy (lookup (codes "api") query.fields))) offered_app
        offered_stream

  abbrev pub offered_query : Text
  offered_query = query_of (offered_pairs w query)

  rtc_uri-address : rtc_uri w query ≡ codes "webrtc://" ++ (offered_address ++ 63 ∷ offered_query)
  unfolding rtc_uri
  rtc_uri-address =
      let port = api_port (truthy (lookup (codes "api") query.fields)) in
      ap
        (λ q.
          codes "webrtc://"
          ++ (offered_server
              ++ (port
                  ++ (codes "/"
                      ++ (offered_app ++ (codes "/" ++ (offered_stream ++ (codes "?" ++ q))))))))
        (offered_pairs-query_of w query)
      ∙ ap (λ u. codes "webrtc://" ++ u)
          (address-append offered_server port offered_app offered_stream (63 ∷ offered_query))

  build_default_rtc_url_lem :
      build_default_rtc_url w query
      ≡ strip_last (length (rtc_uri w query)) (codes "?") (rtc_uri w query)
  unfolding build_default_rtc_url rtc_uri strip_last
  build_default_rtc_url_lem = refl

  -- The URL that the page offers.
  build_default_rtc_url-address :
      Lacks 63 offered_address
      → Plain (offered_pairs w query)
      → build_default_rtc_url w query
        ≡ codes "webrtc://" ++ (offered_address ++ marked offered_query)
  build_default_rtc_url-address h p =
      let webrtc : Lacks 63 (codes "ebrtc://") = lacks→Lacks 63 (codes "ebrtc://") refl in
      build_default_rtc_url_lem
      ∙ (ap (λ u. strip_last (length u) (codes "?") u) rtc_uri-address
          ∙ strip_query (codes "ebrtc://" ++ offered_address) (offered_pairs w query)
              (Lacks-concat 63 (codes "ebrtc://") offered_address webrtc h) p)

module _ (anchor : Text → Anchor) (w : Window) (url : Text) (pairs : Pairs) (plain : Plain pairs)
    (search : (anchor (http_url url)).search ≡ marked (query_of pairs)) where
  -- The object before the query is read.
  abbrev read_object : Parsed
  read_object =
      let a = anchor (http_url url) in
      record { fields = url_fields url a (rtc_port url (schema_of url) a); user_query = [] }

  -- A field of the anchor's parts that the query does not name is what the SDK reads.
  parse-kept :
      (key : Text)
      → text_eq (codes "port") key ≡ false
      → key ≢ codes "vhost"
      → last_of key pairs ≡ none
      → lookup key (parse anchor w url).fields ≡ lookup key read_object.fields
  unfolding parse
  parse-kept key port vhost named =
      (fix_port-kept (schema_of url) w 1985 (fill_query (anchor (http_url url)).search read_object)
        key port).0
      ∙ (ap (λ q. lookup key (fill_query q read_object).fields) search
          ∙ fill_query-kept pairs read_object key plain vhost named)

  parse-user : (key : Text) → lookup key (parse anchor w url).user_query ≡ last_of key pairs
  unfolding parse
  parse-user key =
      ap (lookup key)
        (fix_port-kept (schema_of url) w 1985
          (fill_query (anchor (http_url url)).search read_object) (codes "url") refl).1
      ∙ (ap (λ q. lookup key (fill_query q read_object).user_query) search
          ∙ fill_query-user pairs read_object key plain)

-- The URL of a WebRTC stream that a page offers for a query is read by the SDK as the server, the app
-- and the stream of that query, or their defaults, and its user query holds the pairs that the page
-- wrote, the last one of a key: no parameter that the page takes over from its own query replaces one
-- of the three. The anchor reads the URL as a host, a path and a query; the parts of the URL have no
-- "?", the stream has no slash, the app has no virtual host in it, nothing there is another schema, and
-- no key or value of the query has a separator.
pub build_default_rtc_url-parse :
    (anchor : Text → Anchor) (w : Window) (query : Parsed) (key : Text)
    → Plain (offered_pairs w query)
    → Lacks 63 (offered_address w query)
    → Lacks 47 (offered_stream w query)
    → Unqueried (offered_app w query)
    → NoSchema (offered_address w query ++ marked (offered_query w query))
    → Reads
        (anchor (codes "http://" ++ (offered_address w query ++ marked (offered_query w query))))
        (offered_server w query)
        (offered_app w query)
        (offered_stream w query)
        (marked (offered_query w query))
    → let o = parse anchor w (build_default_rtc_url w query) in
      (lookup (codes "server") o.fields ≡ some (str (offered_server w query)))
      × (lookup (codes "app") o.fields ≡ some (str (offered_app w query)))
      × (lookup (codes "stream") o.fields ≡ some (str (offered_stream w query)))
      × (lookup key o.user_query ≡ last_of key (offered_pairs w query))
unfolding text_eq reserved
build_default_rtc_url-parse anchor w query key plain mark slash app schema reads =
    let rest = offered_address w query ++ marked (offered_query w query) in
    let url = codes "webrtc://" ++ rest in
    let e = build_default_rtc_url-address w query mark plain in
    let a = anchor (http_url url) in
    let server = offered_server w query in
    let name = offered_app w query in
    let stream = offered_stream w query in
    let search = marked (offered_query w query) in
    let r =
      subst (λ u. Reads (anchor u) server name stream search) (sym (http_url-webrtc rest schema))
        reads in
    let port = rtc_port url (schema_of url) a in
    let pairs = offered_pairs w query in
    let kept : (k : Text)
        → text_eq (codes "port") k ≡ false
        → k ≢ codes "vhost"
        → last_of k pairs ≡ none
        → lookup k (parse anchor w (build_default_rtc_url w query)).fields
          ≡ lookup k (url_fields url a port) =
      λ k p v l.
        ap (λ u. lookup k (parse anchor w u).fields) e
        ∙ parse-kept anchor w url pairs plain r.query k p v l in
    (
      kept (codes "server") refl (ground arith)
            (last_of-offered_pairs w query (codes "server") refl refl refl)
          ∙ url_fields-server url server name stream search a port r,
      kept (codes "app") refl (ground arith)
            (last_of-offered_pairs w query (codes "app") refl refl refl)
          ∙ url_fields-app url server name stream search a port r slash app,
      kept (codes "stream") refl (ground arith)
            (last_of-offered_pairs w query (codes "stream") refl refl refl)
          ∙ url_fields-stream url server name stream search a port r slash,
      ap (λ u. lookup key (parse anchor w u).user_query) e
          ∙ parse-user anchor w url pairs plain r.query key,
    )
