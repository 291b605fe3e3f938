-- ===== src/Console/Streams/Tests.antt =====
-- Streams of the console at concrete inputs.
use go_live_streaming.Base.{◌+◌, ◌-◌, ◌≡◌, refl, none, some, [], ◌∷◌, ◌++◌, length, drop, get_elem?}
use go_live_streaming.Base.Text.{Text, codes, join, split, starts_with}
use go_live_streaming.Base.Split.{lacks→Lacks}
use go_live_streaming.Base.Dict.{lookup}
use go_live_streaming.Urls.Query.{str, Window, parse_query_string}
use go_live_streaming.Console.Server.{Server, number}
use go_live_streaming.Console.Streams.{
  Vhost, Stream, set_owners, dvr_id, preview_page, sc_filter_preview_url, sc_filter_audio,
  sc_filter_video,
}
use go_live_streaming.Console.Streams.Owners.{Owned, set_owners-Owned}
use go_live_streaming.Console.Streams.Paths.{count, dvr_id_parts}
use go_live_streaming.Console.Streams.Preview.{PlainLink, IsPlain-lacks, preview_url-parse}

abbrev home : Vhost
home = record { id = codes "v1"; name = codes "a.b" }

-- A stream under a name with two slashes.
abbrev nested : Stream
nested = record {
  id = codes "s1";
  vhost = codes "v1";
  app = codes "live";
  name = codes "a/b/c";
  cid = codes "7";
  owner = some home;
}

set_owners-Owned_example :
    (length (set_owners (home ∷ []) (nested ∷ [])) ≡ 1)
    × ((shown : Stream) × (get_elem? (set_owners (home ∷ []) (nested ∷ [])) 0 ≡ some shown)
        × Owned (home ∷ []) nested shown)
set_owners-Owned_example = set_owners-Owned (home ∷ []) (nested ∷ []) 0 nested refl

dvr_id_parts_example :
    (path : Text) × (dvr_id nested ≡ some path)
    × (length (split path 47) ≡ 6 + (count 47 nested.app - 1) + (count 47 nested.name - 1))
dvr_id_parts_example =
    dvr_id_parts nested home refl (lacks→Lacks 47 (codes "a.b") refl)
      (lacks→Lacks 47 (codes "s1") refl)

two_slashes : dvr_id nested ≡ some (codes "/dvr/a.b/s1/live/a___b/c")
unfolding dvr_id starts_with
two_slashes = refl

abbrev local : Server
local = record {
  schema = codes "http";
  host = codes "h";
  port = number 1985;
  rtmp = [];
  http = codes "8080" ∷ [];
}

nested-PlainLink : PlainLink local (codes "a.b") nested
nested-PlainLink = record {
  owner_plain = IsPlain-lacks (codes "a.b") refl refl refl refl;
  app = IsPlain-lacks (codes "live") refl refl refl refl;
  name = IsPlain-lacks (codes "a/b/c") refl refl refl refl;
  host = IsPlain-lacks (codes "h") refl refl refl refl;
  port = IsPlain-lacks (codes "8080") refl refl refl refl;
  schema = IsPlain-lacks (codes "http") refl refl refl refl;
}

-- The window of the player's page, where the path of the URL is that of the server above.
abbrev opened : Text → Window
opened url = record {
  host = codes "h:8080";
  hostname = codes "h";
  port = codes "8080";
  pathname = codes "/players/srs_player.html";
  protocol = codes "http:";
  href = url;
  search = drop (length (preview_page local)) url;
  hash = [];
}

preview_url-parse_example :
    (url : Text) × (sc_filter_preview_url local (some nested) ≡ some url)
    × (lookup (codes "vhost") (parse_query_string (opened url)).user_query
        ≡ some (str (codes "a.b")))
    × (lookup (codes "app") (parse_query_string (opened url)).user_query
        ≡ some (str (codes "live")))
    × (lookup (codes "stream") (parse_query_string (opened url)).user_query
        ≡ some (str (codes "a/b/c" ++ codes ".flv")))
    × (lookup (codes "server") (parse_query_string (opened url)).user_query
        ≡ some (str (codes "h")))
    × (lookup (codes "port") (parse_query_string (opened url)).user_query
        ≡ some (str (codes "8080")))
    × (lookup (codes "schema") (parse_query_string (opened url)).user_query
        ≡ some (str (codes "http")))
unfolding preview_page join
preview_url-parse_example =
    preview_url-parse local nested home opened refl nested-PlainLink (λ q h. refl)

-- The filters for video and audio of a stream that has none.
no_video : sc_filter_video none ≡ none
unfolding sc_filter_video
no_video = refl

no_audio : sc_filter_audio none ≡ codes "无音频"
unfolding sc_filter_audio
no_audio = refl
