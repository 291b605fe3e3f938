-- ===== src/Urls/Rtmp/Laws.antt =====
-- The port of a stream's URL, and where the two copies of the parser differ.
use go_live_streaming.Base.{
  ℕ, ◌≡◌, ◌⊎◌, inl, inr, refl, sym, ◌∙◌, ap, Bool, true, false, Option, none, some, [], ◌∷◌, ◌++◌,
  arith, if◌then◌else◌, Bool-cases,
}
use go_live_streaming.Base.Text.{Text, codes, text_eq, text_eq_iff, starts_with, is_empty}
use go_live_streaming.Base.Dict.{Dict, lookup, assign, lookup-assign}
use go_live_streaming.Urls.Query.{Value, number, str, Parsed, Window, truthy, fill_query}
use go_live_streaming.Urls.Rtmp.{
  Anchor, http_url, schema_of, url_fields, rtmp_port, guess_port, webrtc_port, value_is, is_rtc,
  fix_missing, fix_port, parse_with, parse_rtmp_url, parse_player_url, rtc_port, parse,
}

-- The results of the two copies.
pub record Agree (schema : Text) (console players : Parsed) : Type 0 where
  pub user_query : console.user_query ≡ players.user_query
  pub fields :
      (key : Text) → (key ≡ codes "port") ⊎ (lookup key console.fields ≡ lookup key players.fields)
  pub port :
      (lookup (codes "port") console.fields ≡ lookup (codes "port") players.fields)
      ⊎ ((schema ≡ codes "webrtc") ⊎ (schema ≡ codes "rtc"))
        × (lookup (codes "port") console.fields ≡ some (number 80))
        × (lookup (codes "port") players.fields ≡ some (number 1985))

Agree-refl : (schema : Text) (p : Parsed) → Agree schema p p
Agree-refl schema p = record { user_query = refl; fields = λ key. inr refl; port = inl refl }

webrtc_port_cases :
    (w : Window) (ret : Parsed)
    → (webrtc_port w 80 ret ≡ webrtc_port w 1985 ret)
      ⊎ ((webrtc_port w 80 ret ≡ 80) × (webrtc_port w 1985 ret ≡ 1985))
unfolding webrtc_port
webrtc_port_cases w ret =
    elim (Bool-cases (value_is (lookup (codes "schema") ret.user_query) (codes "https"))) [
      | inl a ↦ ground (arith, a)
      | inr a ↦ elim (Bool-cases (starts_with w.href (codes "https://"))) [
        | inl b ↦ ground (arith, a, b)
        | inr b ↦ ground (arith, a, b)
      ]
    ]

is_rtc_cases :
    (schema : Text) → is_rtc schema ≡ true → (schema ≡ codes "webrtc") ⊎ (schema ≡ codes "rtc")
is_rtc_cases schema h =
    ground (arith, text_eq_iff schema (codes "webrtc"), text_eq_iff schema (codes "rtc"))

lookup-port :
    (n : ℕ) (d : Dict Value)
    → lookup (codes "port") (assign (codes "port") (number n) d) ≡ some (number n)
unfolding text_eq
lookup-port n d = lookup-assign (codes "port") (codes "port") (number n) d

lookup-other :
    (m n : ℕ) (key : Text) (d : Dict Value)
    → (key ≡ codes "port")
      ⊎ (lookup key (assign (codes "port") (number m) d)
          ≡ lookup key (assign (codes "port") (number n) d))
lookup-other m n key d = elim (Bool-cases (text_eq (codes "port") key)) [
  | inl e ↦ inl (sym ((text_eq_iff (codes "port") key).0 e))
  | inr e ↦ inr (
      ground (
        arith,
        lookup-assign (codes "port") key (number m) d,
        lookup-assign (codes "port") key (number n) d,
        e,
      ))
]

fix_missing-Agree :
    (schema : Text) (o : Option Value) (rtc : Bool) (m n : ℕ) (ret : Parsed)
    → (rtc ≡ true → (schema ≡ codes "webrtc") ⊎ (schema ≡ codes "rtc"))
    → (m ≡ n) ⊎ ((m ≡ 80) × (n ≡ 1985))
    → Agree schema (fix_missing o rtc m ret) (fix_missing o rtc n ret)
fix_missing-Agree schema (some p) rtc m n ret h c = Agree-refl schema ret
fix_missing-Agree schema none false m n ret h c = Agree-refl schema ret
fix_missing-Agree schema none true m n ret h c = record {
  user_query = refl;
  fields = λ key. lookup-other m n key ret.fields;
  port = elim c [
    | inl e ↦ inl (ap (λ i. lookup (codes "port") (assign (codes "port") (number i) ret.fields)) e)
    | inr e ↦ inr (
      h refl,
      lookup-port m ret.fields ∙ ap (λ i. some (number i)) e.0,
      lookup-port n ret.fields ∙ ap (λ i. some (number i)) e.1,
    )
  ];
}

fix_port-Agree :
    (schema : Text) (w : Window) (ret : Parsed)
    → Agree schema (fix_port schema w 80 ret) (fix_port schema w 1985 ret)
unfolding fix_port
fix_port-Agree schema w ret =
    fix_missing-Agree schema (truthy (lookup (codes "port") ret.fields)) (is_rtc schema)
      (webrtc_port w 80 ret) (webrtc_port w 1985 ret) ret (is_rtc_cases schema)
      (webrtc_port_cases w ret)

-- The console's and the players' `parse_rtmp_url` read the same query and the same fields of a URL,
-- and the same port, except that a webrtc or rtc URL with no port may get 80 in the console where it
-- gets 1985 in the players.
pub parse_rtmp_url-Agree :
    (anchor : Text → Anchor) (w : Window) (url : Text)
    → Agree (schema_of url) (parse_rtmp_url anchor w url) (parse_player_url anchor w url)
unfolding parse_rtmp_url parse_player_url parse_with
parse_rtmp_url-Agree anchor w url = fix_port-Agree (schema_of url) w (
    fill_query (anchor (http_url url)).search (record {
      fields =
          url_fields url (anchor (http_url url))
            (rtmp_port (schema_of url) (anchor (http_url url)).port);
      user_query = [];
    }))

fill_query-nil : (obj : Parsed) → fill_query [] obj ≡ record obj { user_query = [] }
unfolding fill_query
fill_query-nil obj = refl

url_fields-port :
    (url : Text) (a : Anchor) (port : Value)
    → lookup (codes "port") (url_fields url a port) ≡ some port
unfolding url_fields lookup text_eq
url_fields-port url a port = refl

abbrev pub port_or : Option Value → Option Value → ℕ → Option Value
port_or (some p) v n = v
port_or none v n = some (number n)

fix_missing-port :
    (o : Option Value) (n : ℕ) (ret : Parsed)
    → lookup (codes "port") (fix_missing o true n ret).fields
      ≡ port_or o (lookup (codes "port") ret.fields) n
fix_missing-port (some p) n ret = refl
fix_missing-port none n ret = lookup-port n ret.fields

-- The port of an object without a query, for a schema that is webrtc.
fix_port-webrtc :
    (schema : Text) (w : Window) (default : ℕ) (d : Dict Value)
    → schema ≡ codes "webrtc"
    → lookup
        (codes "port")
        (fix_port schema w default (record { fields = d; user_query = [] })).fields
      ≡ port_or
          (truthy (lookup (codes "port") d))
          (lookup (codes "port") d)
          (if starts_with w.href (codes "https://") then 443 else default)
unfolding fix_port webrtc_port lookup text_eq
fix_port-webrtc schema w default d e = rw e (
    fix_missing-port (truthy (lookup (codes "port") d))
      (if starts_with w.href (codes "https://") then 443 else default)
      (record { fields = d; user_query = [] }))

port_result :
    (p : Text) (b c : Bool) (n : ℕ)
    → port_or
        (truthy (
          some
            (if is_empty p then (if b then number (if c then 80 else 443) else str []) else str p)))
        (some
          (if is_empty p then (if b then number (if c then 80 else 443) else str []) else str p))
        n
      ≡ some
          (if is_empty p then (if b then number (if c then 80 else 443) else number n) else str p)
port_result [] true true n = refl
port_result [] true false n = refl
port_result [] false c n = refl
port_result (d ∷ p) b c n = refl

rtc_port-webrtc :
    (url schema : Text) (a : Anchor)
    → schema ≡ codes "webrtc"
    → rtc_port url schema a ≡ (
        if is_empty a.port
        then (if starts_with url (codes "webrtc://" ++ (a.host ++ codes ":"))
            then number
                (if starts_with url (codes "webrtc://" ++ (a.host ++ codes ":80")) then 80 else 443)
            else str [])
        else str a.port)
unfolding rtc_port guess_port text_eq
rtc_port-webrtc url schema a e = rw e refl

-- For a webrtc URL with no query, the SDK takes the port that the anchor has; with none there, 80 if
-- the URL has a port that starts with 80, 443 if it has a colon after the host, and else 443 on a page
-- that https served and 1985 on another.
pub parse-webrtc_port :
    (anchor : Text → Anchor) (w : Window) (url : Text)
    → schema_of url ≡ codes "webrtc"
    → (anchor (http_url url)).search ≡ []
    → lookup (codes "port") (parse anchor w url).fields
      ≡ some (
          if is_empty (anchor (http_url url)).port
          then (if starts_with url
                (codes "webrtc://" ++ ((anchor (http_url url)).host ++ codes ":"))
              then number (
                  if starts_with url
                    (codes "webrtc://" ++ ((anchor (http_url url)).host ++ codes ":80"))
                  then 80
                  else 443)
              else number (if starts_with w.href (codes "https://") then 443 else 1985))
          else str (anchor (http_url url)).port)
unfolding parse
parse-webrtc_port anchor w url s q =
    let a = anchor (http_url url) in
    let obj : Parsed = record {
      fields = url_fields url a (rtc_port url (schema_of url) a);
      user_query = [];
    } in
    let port = λ (o : Parsed). lookup (codes "port") (fix_port (schema_of url) w 1985 o).fields in
    let n = if starts_with w.href (codes "https://") then 443 else 1985 in
    let found =
      url_fields-port url a (rtc_port url (schema_of url) a)
      ∙ ap some (rtc_port-webrtc url (schema_of url) a s) in
    ap (λ t. port (fill_query t obj)) q
    ∙ (ap port (fill_query-nil obj)
        ∙ (fix_port-webrtc (schema_of url) w 1985 obj.fields s
            ∙ (ap (λ o. port_or (truthy o) o n) found ∙ port_result a.port _ _ n)))
