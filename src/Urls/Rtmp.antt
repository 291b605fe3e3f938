-- ===== src/Urls/Rtmp.antt =====
-- The URL of a stream: `parse_rtmp_url` of the console's and of the players' winlin.utility.js, and
-- `parse` and `prepareUrl` of srs.sdk.js. The browser's URL parser, an anchor element, is a parameter.
pub mod Laws
pub mod Api
use go_live_streaming.Base.{
  ℕ, zero, suc, ◌+◌, ◌≡◌, Bool, true, false, not, ◌&&◌, ◌||◌, Option, none, some, List, [], ◌∷◌,
  ◌++◌, ltb, leb, if◌then◌else◌, length, drop,
}
use go_live_streaming.Base.Text.{
  Text, codes, text_eq, starts_with, index_of?, last_index_of?, slice, substring, replace, split,
  is_empty,
}
use go_live_streaming.Base.Decimal.{dec}
use go_live_streaming.Base.Dict.{Dict, lookup, assign}
use go_live_streaming.Urls.Query.{
  Value, undefined, number, str, Parsed, Window, truthy, or_else, fill_query,
}

-- The anchor element after its `href` is set.
pub record Anchor : Type 0 where
  pub protocol : Text
  pub hostname : Text
  pub host : Text
  pub port : Text
  pub pathname : Text
  pub search : Text

-- The URL that the anchor gets.
unfoldable pub http_url : Text → Text
unfolding replace
http_url url =
    replace
      (replace (replace url (codes "rtmp://") (codes "http://")) (codes "webrtc://")
        (codes "http://"))
      (codes "rtc://") (codes "http://")

-- `s.slice(s.indexOf(t) + skip)`, where t occurs
abbrev pub slice_after : Text → ℕ → ℕ → Text
slice_after s skip i = drop (i + skip) s

-- The part before "&", if that is not the first character.
unfoldable pub before_and : Text → Text
unfolding index_of?
before_and s = elim (index_of? s (codes "&")) [
  | none ↦ s
  | some i ↦ if ltb 0 i then slice s 0 i else s
]

-- `vhost` and `app` from the params of the app.
unfoldable pub params_vhost : Text → Text → Text
unfolding index_of? before_and
params_vhost params hostname = elim (index_of? params (codes "vhost=")) [
  | none ↦ hostname
  | some i ↦ if ltb 0 i then before_and (slice_after params 6 i) else hostname
]

unfoldable pub split_app : Text → Text → Text × Text
unfolding index_of? params_vhost
split_app app hostname = elim (index_of? app (codes "?")) [
  | none ↦ (hostname, app)
  | some i ↦ (params_vhost (drop i app) hostname, slice app 0 i)
]

abbrev pub is_digit : ℕ → Bool
is_digit c = leb 48 c && leb c 57

abbrev pub all_digits : Text → Bool
all_digits [] = true
all_digits (c ∷ t) = is_digit c && all_digits t

abbrev pub is_number_text : Text → Bool
is_number_text t = not (is_empty t) && all_digits t

abbrev pub four_numbers : List Text → Bool
four_numbers (a ∷ b ∷ c ∷ d ∷ []) =
    is_number_text a && (is_number_text b && (is_number_text c && is_number_text d))
four_numbers _ = false

-- `/^(\d+)\.(\d+)\.(\d+)\.(\d+)$/`
unfoldable pub is_ip : Text → Bool
unfolding split
is_ip t = four_numbers (split t 46)

-- When vhost equals to server, and server is ip, the vhost is __defaultVhost__.
unfoldable pub default_vhost : Text → Text → Text
unfolding is_ip text_eq
default_vhost vhost hostname =
    if text_eq hostname vhost && is_ip hostname then codes "__defaultVhost__" else vhost

unfoldable pub schema_of : Text → Text
unfolding index_of?
schema_of url = elim (index_of? url (codes "://")) [
  | none ↦ codes "rtmp"
  | some i ↦ if ltb 0 i then slice url 0 i else codes "rtmp"
]

abbrev pub index_or_zero : Option ℕ → ℕ
index_or_zero none = 0
index_or_zero (some i) = i

abbrev pub after_index : Option ℕ → ℕ
after_index none = 0
after_index (some i) = suc i

unfoldable pub guess_port : Text → Value → Value
unfolding text_eq
guess_port schema port =
    if text_eq schema (codes "http")
    then number 80
    else if text_eq schema (codes "https")
    then number 443
    else if text_eq schema (codes "rtmp")
    then number 1935
    else port

-- `a.port`, or the port of the schema.
unfoldable pub rtmp_port : Text → Text → Value
unfolding guess_port
rtmp_port schema [] = guess_port schema (str [])
rtmp_port schema (c ∷ t) = str (c ∷ t)

-- The object `ret` before the query is read, for a port.
unfoldable pub url_fields : Text → Anchor → Value → Dict Value
unfolding schema_of replace last_index_of? split_app default_vhost
url_fields url a port =
    let slash = last_index_of? a.pathname (codes "/") in
    let app = substring a.pathname 1 (index_or_zero slash) in
    let parts = split_app (replace app (codes "...vhost...") (codes "?vhost=")) a.hostname in
    (codes "url", str url)
    ∷ (codes "schema", str (schema_of url))
    ∷ (codes "server", str a.hostname)
    ∷ (codes "port", port)
    ∷ (codes "vhost", str (default_vhost parts.0 a.hostname))
    ∷ (codes "app", str parts.1)
    ∷ (codes "stream", str (drop (after_index slash) a.pathname))
    ∷ []

abbrev pub value_is : Option Value → Text → Bool
value_is (some (str t)) s = text_eq t s
value_is _ s = false

-- For webrtc API, 443 if the URL or the page says https, or else the port given.
unfoldable pub webrtc_port : Window → ℕ → Parsed → ℕ
unfolding text_eq lookup starts_with
webrtc_port w default ret =
    if value_is (lookup (codes "schema") ret.user_query) (codes "https")
    then 443
    else if starts_with w.href (codes "https://")
    then 443
    else default

abbrev pub is_rtc : Text → Bool
is_rtc schema = text_eq schema (codes "webrtc") || text_eq schema (codes "rtc")

-- `if (!ret.port) if (schema === 'webrtc' || schema === 'rtc') ret.port = n`
abbrev pub fix_missing : Option Value → Bool → ℕ → Parsed → Parsed
fix_missing (some p) rtc n ret = ret
fix_missing none false n ret = ret
fix_missing none true n ret = record ret { fields = assign (codes "port") (number n) ret.fields }

unfoldable pub fix_port : Text → Window → ℕ → Parsed → Parsed
unfolding webrtc_port text_eq lookup assign
fix_port schema w default ret =
    fix_missing (truthy (lookup (codes "port") ret.fields)) (is_rtc schema)
      (webrtc_port w default ret) ret

module _ (anchor : Text → Anchor) (w : Window) where
  -- The body of `parse_rtmp_url`, for the default port of the copy.
  unfoldable pub parse_with : ℕ → Text → Parsed
  unfolding http_url schema_of rtmp_port url_fields fill_query fix_port
  parse_with default url =
      let a = anchor (http_url url) in
      let schema = schema_of url in
      fix_port schema w default (
        fill_query a.search
          (record { fields = url_fields url a (rtmp_port schema a.port); user_query = [] }))

  -- `parse_rtmp_url` of the console
  unfoldable pub parse_rtmp_url : Text → Parsed
  unfolding parse_with
  parse_rtmp_url = parse_with 80

  -- `parse_rtmp_url` of the players
  unfoldable pub parse_player_url : Text → Parsed
  unfolding parse_with
  parse_player_url = parse_with 1985

  -- The name that srs.utility.js gives it.
  unfoldable pub srs_parse_rtmp_url : Text → Parsed
  unfolding parse_player_url
  srs_parse_rtmp_url = parse_player_url

-- The SDK: a port that the anchor dropped as the default of http is read from the URL.
unfoldable pub rtc_port : Text → Text → Anchor → Value
unfolding text_eq starts_with guess_port
rtc_port url schema a =
    if is_empty a.port
    then guess_port schema (
        if text_eq schema (codes "webrtc")
          && starts_with url (codes "webrtc://" ++ (a.host ++ codes ":"))
        then number
            (if starts_with url (codes "webrtc://" ++ (a.host ++ codes ":80")) then 80 else 443)
        else str [])
    else str a.port

abbrev pub print : Value → Text
print undefined = codes "undefined"
print (number n) = dec n
print (str t) = t

abbrev pub get : Text → Dict Value → Text
get key d = print (or_else (lookup key d) undefined)

-- `api += '/'`, if its last character is not a slash.
unfoldable pub with_slash : Text → Text
unfolding last_index_of?
with_slash api = elim (last_index_of? api (codes "/")) [
  | none ↦ if is_empty api then api else api ++ codes "/"
  | some i ↦ if ltb (suc i) (length api) then api ++ codes "/" else api
]

unfoldable pub extra_queries : Dict Value → Text
unfolding text_eq
extra_queries [] = []
extra_queries ((key, v) ∷ d) =
    let rest = extra_queries d in
    if text_eq key (codes "api") || text_eq key (codes "play")
    then rest
    else codes "&" ++ (key ++ (codes "=" ++ (print v ++ rest)))

-- What `prepareUrl` returns, less the transaction id.
pub record Prepared : Type 0 where
  pub api_url : Text
  pub stream_url : Text
  pub schema : Text
  pub url_object : Parsed
  pub port : Value

-- The body of `prepareUrl`, for the URL object.
unfoldable pub prepared : Window → Text → Parsed → Prepared
unfolding with_slash extra_queries replace text_eq lookup
prepared w default_path o =
    let schema : Text = elim (truthy (lookup (codes "schema") o.user_query)) [
      | some v ↦ print v ++ codes ":"
      | none ↦ w.protocol
    ] in
    let port =
      or_else (truthy (lookup (codes "port") o.fields))
        (number (if text_eq schema (codes "https:") then 443 else 1985)) in
    let api =
      with_slash
        (print (or_else (truthy (lookup (codes "play") o.user_query)) (str default_path))) in
    let start =
      schema
      ++ (codes "//" ++ (get (codes "server") o.fields ++ (codes ":" ++ (print port ++ api)))) in
    record {
      api_url = replace (start ++ extra_queries o.user_query) (api ++ codes "&") (api ++ codes "?");
      stream_url = get (codes "url") o.fields;
      schema = schema;
      url_object = o;
      port = port;
    }

module _ (anchor : Text → Anchor) (w : Window) where
  unfoldable pub parse : Text → Parsed
  unfolding http_url schema_of rtc_port url_fields fill_query fix_port
  parse url =
      let a = anchor (http_url url) in
      let schema = schema_of url in
      fix_port schema w 1985 (
        fill_query a.search
          (record { fields = url_fields url a (rtc_port url schema a); user_query = [] }))

  unfoldable pub prepare_url : Text → Text → Prepared
  unfolding parse prepared
  prepare_url default_path url = prepared w default_path (parse url)
