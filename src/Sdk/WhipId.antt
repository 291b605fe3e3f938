-- ===== src/Sdk/WhipId.antt =====
-- `parseId` of SrsRtcWhipWhepAsync in srs.sdk.js: the id of a session, from the two descriptions.
pub mod Laws
use go_live_streaming.Base.{ℕ, ◌+◌, ◌-◌, Option, none, some, List, [], ◌∷◌, ◌++◌, take, drop}
use go_live_streaming.Base.Text.{Text, codes, index_of?}
use go_live_streaming.Urls.Rtmp.{Anchor}

pub record WhipSession : Type 0 where
  pub session_id : Text
  pub simulator : Text

abbrev pub marker : Text
marker = codes "a=ice-ufrag:"

abbrev pub newline : Text
newline = codes "\n"

-- `s.substr(s.indexOf(marker) + marker.length)`: with no marker the sum is 11.
abbrev pub from_marker : Option ℕ → Text → Text
from_marker none s = drop 11 s
from_marker (some i) s = drop (i + 12) s

unfoldable pub after_marker : Text → Text
unfolding index_of?
after_marker s = from_marker (index_of? s marker) s

-- `s.substr(0, s.indexOf('\n') - back)`: a length below 0 is 0.
abbrev pub up_to : ℕ → Option ℕ → Text → Text
up_to back none s = []
up_to back (some i) s = take (i - back) s

unfoldable pub session_id_of : Text → Text → Text
unfolding after_marker index_of?
session_id_of offer answer =
    let first = after_marker offer in
    let both = (up_to 1 (index_of? first newline) first ++ codes ":") ++ after_marker answer in
    up_to 0 (index_of? both newline) both

unfoldable pub parse_id : (Text → Anchor) → Text → Text → Text → WhipSession
unfolding session_id_of
parse_id anchor url offer answer =
    let a = anchor url in
    record {
      session_id = session_id_of offer answer;
      simulator = a.protocol ++ (codes "//" ++ (a.host ++ codes "/rtc/v1/nack/"));
    }
