-- ===== src/Signaling/Parse/Tests.antt =====
-- The location of a demo page at concrete inputs.
use go_live_streaming.Base.{◌≡◌, refl, Option, some}
use go_live_streaming.Base.Text.{Text, codes, index_of?, last_index_of?, starts_with, replace}
use go_live_streaming.Signaling.Parse.{
  Location, param, before, between, clean, parse, read, ws_host_of, ws_port_of,
}
use go_live_streaming.Signaling.Parse.Laws.{QueryOf, parse_lem}

abbrev demo : Location
demo = record {
  href = codes "http://a.b/x?wss=ws&&room=1&token=2";
  protocol = codes "http:";
  host = codes "a.b";
  hostname = codes "a.b";
}

parse_lem_example :
    (q : Option Text) × (parse demo (codes "me")
      ≡ some (record (read demo (codes "me") (ws_host_of demo) (ws_port_of demo)) { query = q }))
    × QueryOf (read demo (codes "me") (ws_host_of demo) (ws_port_of demo)).raw_query q
parse_lem_example = parse_lem demo (codes "me")

-- "vhost=" has "host=" in it.
vhost_host : param (codes "?vhost=c") (codes "host=") ≡ some (codes "c")
unfolding param before between index_of? starts_with
vhost_host = refl

clean_query : clean (codes "?&&&token=2&&") ≡ some (codes "?token=2")
unfolding clean index_of? starts_with replace last_index_of?
clean_query = refl

abbrev doubled : Text
doubled = codes "a&&b"
