-- ===== src/Urls/Offered/Tests.antt =====
-- A page that offers a stream of another server, with a parameter of its own.
use go_live_streaming.Base.{◌≡◌, refl, some, [], ◌++◌}
use go_live_streaming.Base.Text.{Text, codes, index_of?, text_eq, starts_with, join}
use go_live_streaming.Base.Split.{Lacks, lacks→Lacks}
use go_live_streaming.Base.Dict.{lookup}
use go_live_streaming.Urls.Query.{str, Parsed, Window, parse_query_string}
use go_live_streaming.Urls.Query.Laws.{Plain, plain→Plain, last_of}
use go_live_streaming.Urls.Rtmp.{Anchor, parse}
use go_live_streaming.Urls.Page.{build_default_rtc_url, field_or, reserved}
use go_live_streaming.Urls.Offered.{Unqueried, NoSchema, Reads}
use go_live_streaming.Urls.Offered.Queries.{offered_pairs, extra_pairs}
use go_live_streaming.Urls.Offered.RoundTrip.{
  marked, offered_server, offered_app, offered_stream, offered_address, offered_query,
  build_default_rtc_url-parse,
}

abbrev player : Window
player = record {
  host = codes "a.com:8080";
  hostname = codes "a.com";
  port = codes "8080";
  pathname = codes "/players/rtc_player.html";
  protocol = codes "http:";
  href = codes "http://a.com:8080/players/rtc_player.html";
  search = codes "?server=b.com&stream=show&eip=1.2.3.4";
  hash = [];
}

abbrev asked : Parsed
asked = parse_query_string player

-- The anchor for the URL that the page offers.
abbrev offered_anchor : Text → Anchor
offered_anchor url = record {
  protocol = codes "http:";
  hostname = codes "b.com";
  host = codes "b.com";
  port = [];
  pathname = codes "/live/show";
  search = codes "?vhost=a.com&eip=1.2.3.4";
}

offered_test :
    build_default_rtc_url player asked ≡ codes "webrtc://b.com/live/show?vhost=a.com&eip=1.2.3.4"
unfolding build_default_rtc_url parse_query_string starts_with join
offered_test = refl

pairs-Plain : Plain (offered_pairs player asked)
unfolding offered_pairs parse_query_string field_or text_eq starts_with extra_pairs reserved
pairs-Plain = plain→Plain (offered_pairs player asked) refl

address-Lacks : Lacks 63 (offered_address player asked)
unfolding parse_query_string field_or index_of? starts_with text_eq
address-Lacks = lacks→Lacks 63 (offered_address player asked) refl

stream-Lacks : Lacks 47 (offered_stream player asked)
unfolding parse_query_string field_or index_of? starts_with text_eq
stream-Lacks = lacks→Lacks 47 (offered_stream player asked) refl

app-Unqueried : Unqueried (offered_app player asked)
unfolding parse_query_string field_or index_of? starts_with text_eq
app-Unqueried = record {
  no_query = lacks→Lacks 63 (offered_app player asked) refl;
  no_vhost = refl;
}

rest-NoSchema : NoSchema (offered_address player asked ++ marked (offered_query player asked))
unfolding parse_query_string offered_pairs field_or index_of? starts_with text_eq extra_pairs
    reserved join
rest-NoSchema = record { no_rtmp = refl; no_rtc = refl }

anchor-Reads :
    Reads
      (offered_anchor
        (codes "http://" ++ (offered_address player asked ++ marked (offered_query player asked))))
      (offered_server player asked)
      (offered_app player asked)
      (offered_stream player asked)
      (marked (offered_query player asked))
unfolding parse_query_string offered_pairs field_or index_of? starts_with text_eq extra_pairs
    reserved join
anchor-Reads = record { hostname = refl; pathname = refl; query = refl }

build_default_rtc_url-parse_example :
    let o = parse offered_anchor player (build_default_rtc_url player asked) in
    (lookup (codes "server") o.fields ≡ some (str (offered_server player asked)))
    × (lookup (codes "app") o.fields ≡ some (str (offered_app player asked)))
    × (lookup (codes "stream") o.fields ≡ some (str (offered_stream player asked)))
    × (lookup (codes "eip") o.user_query ≡ last_of (codes "eip") (offered_pairs player asked))
build_default_rtc_url-parse_example =
    build_default_rtc_url-parse offered_anchor player asked (codes "eip") pairs-Plain address-Lacks
      stream-Lacks app-Unqueried rest-NoSchema anchor-Reads
