-- ===== src/Urls/Tests.antt =====
-- The parsers and the builders of URLs at concrete inputs.
use go_live_streaming.Base.{◌≡◌, ◌≢◌, refl, [], ◌∷◌, ◌++◌, arith}
use go_live_streaming.Base.Text.{Text, codes, starts_with, join}
use go_live_streaming.Base.Decimal.{dec}
use go_live_streaming.Base.Split.{Lacks, lacks→Lacks}
use go_live_streaming.Urls.Rtmp.Api.{base_of, path_of}
use go_live_streaming.Base.Dict.{lookup}
use go_live_streaming.Urls.Query.{Parsed, Window, truthy, fill_query, parse_query_string}
use go_live_streaming.Urls.Query.Laws.{
  Pairs, Plain, plain→Plain, query_of, last_of, or_value, fill_query-query_of,
}
use go_live_streaming.Urls.Rtmp.{
  Prepared, Anchor, schema_of, parse_rtmp_url, parse_player_url, prepare_url,
}
use go_live_streaming.Urls.Rtmp.Laws.{Agree, parse_rtmp_url-Agree}
use go_live_streaming.Urls.Page.{
  build_default_rtc_url, build_default_flv_url, build_default_whip_whep_url,
}

abbrev empty : Parsed
empty = record { fields = []; user_query = [] }

abbrev one_pair : Pairs
one_pair = (codes "domain", codes "b.com") ∷ []

two_pairs-Plain : Plain ((codes "vhost", codes "a.com") ∷ one_pair)
two_pairs-Plain = plain→Plain ((codes "vhost", codes "a.com") ∷ one_pair) refl

domain_vhost : codes "domain" ≢ codes "vhost"
domain_vhost = ground arith

fill_query-query_of_example :
    (lookup
        (codes "domain")
        (fill_query (query_of ((codes "vhost", codes "a.com") ∷ one_pair)) empty).user_query
      ≡ last_of (codes "domain") ((codes "vhost", codes "a.com") ∷ one_pair))
    × (lookup
          (codes "domain")
          (fill_query (query_of ((codes "vhost", codes "a.com") ∷ one_pair)) empty).fields
        ≡ or_value
            (last_of (codes "domain") ((codes "vhost", codes "a.com") ∷ one_pair))
            (lookup (codes "domain") empty.fields))
    × (lookup
          (codes "vhost")
          (fill_query (query_of ((codes "vhost", codes "a.com") ∷ one_pair)) empty).fields
        ≡ or_value
            (truthy (
              or_value
                (last_of (codes "domain") ((codes "vhost", codes "a.com") ∷ one_pair))
                (lookup (codes "domain") empty.fields)))
            (or_value
              (last_of (codes "vhost") ((codes "vhost", codes "a.com") ∷ one_pair))
              (lookup (codes "vhost") empty.fields)))
fill_query-query_of_example =
    fill_query-query_of (codes "vhost") (codes "a.com") one_pair empty (codes "domain")
      (codes "domain") two_pairs-Plain domain_vhost

-- A page that http served, with its query.
abbrev page : Window
page = record {
  host = codes "a.com:8080";
  hostname = codes "a.com";
  port = codes "8080";
  pathname = codes "/players/rtc_player.html";
  protocol = codes "http:";
  href = codes "http://a.com:8080/players/rtc_player.html?stream=show&eip=1.2.3.4";
  search = codes "?stream=show&eip=1.2.3.4";
  hash = [];
}

-- The anchor for the host a.com, whose port is not written.
abbrev anchor : Text → Anchor
anchor url = record {
  protocol = codes "http:";
  hostname = codes "a.com";
  host = codes "a.com";
  port = [];
  pathname = codes "/live/show";
  search = [];
}

parse_rtmp_url-Agree_example :
    Agree
      (schema_of (codes "webrtc://a.com/live/show"))
      (parse_rtmp_url anchor page (codes "webrtc://a.com/live/show"))
      (parse_player_url anchor page (codes "webrtc://a.com/live/show"))
parse_rtmp_url-Agree_example = parse_rtmp_url-Agree anchor page (codes "webrtc://a.com/live/show")

api_test :
    (prepare_url anchor page (codes "/rtc/v1/play/") (codes "webrtc://a.com/live/show")).api_url
    ≡ codes "http://a.com:1985/rtc/v1/play/"
unfolding prepare_url dec
api_test = refl

rtc_test :
    build_default_rtc_url page (parse_query_string page)
    ≡ codes "webrtc://a.com/live/show?eip=1.2.3.4"
unfolding build_default_rtc_url parse_query_string starts_with join
rtc_test = refl

flv_test : build_default_flv_url page ≡ codes "http://a.com:8080/live/show?eip=1.2.3.4"
unfolding build_default_flv_url starts_with dec join
flv_test = refl

whip_test :
    build_default_whip_whep_url page (codes "/rtc/v1/whip/") (parse_query_string page)
    ≡ codes "http://a.com:1985/rtc/v1/whip/?app=live&stream=show&eip=1.2.3.4"
unfolding build_default_whip_whep_url parse_query_string starts_with join
whip_test = refl

-- The anchor for a URL with a parameter.
abbrev query_anchor : Text → Anchor
query_anchor url = record (anchor url) { search = codes "?eip=1.2.3.4" }

abbrev prepared : Prepared
prepared =
    prepare_url query_anchor page (codes "/rtc/v1/play")
      (codes "webrtc://a.com/live/show?eip=1.2.3.4")

prepared-Lacks : Lacks 38 (base_of prepared ++ path_of (codes "/rtc/v1/play") prepared)
unfolding prepare_url dec starts_with
prepared-Lacks = lacks→Lacks 38 (codes "http://a.com:1985/rtc/v1/play/") refl
