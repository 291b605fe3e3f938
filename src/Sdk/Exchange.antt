-- ===== src/Sdk/Exchange.antt =====
-- What a call of srs.sdk.js exchanges with the server, and what it reads of the page: the request, what
-- `xhr.onload` makes of the response, and the result.
use go_live_streaming.Base.{ℕ, Bool, not, ◌&&◌, Option, none, some, ◌++◌, ◌==◌, if◌then◌else◌}
use go_live_streaming.Base.Text.{Text, codes, text_eq}
use go_live_streaming.Urls.Query.{Window}
use go_live_streaming.Urls.Rtmp.{Anchor, Prepared, get, print}
use go_live_streaming.Sdk.WhipId.{WhipSession, parse_id}

-- What `JSON.parse` makes of the body: whether its code is truthy, and its sdp.
pub record Reply : Type 0 where
  pub code : Bool
  pub sdp : Text

-- The page: the anchor element, the window, whether there is `navigator.mediaDevices`, and
-- `JSON.parse`, which is `none` where it or the access of the code throws.
pub record Browser : Type 0 where
  pub anchor : Text → Anchor
  pub window : Window
  pub media : Bool
  pub parse_json : Text → Option Reply

-- What the call keeps in its closure: `conf` with its tid, or the url of WHIP and WHEP.
pub data Job : Type 0 where
  rtc : Prepared → Text → Job
  whip : Text → Job

pub data Body : Type 0 where
  json : (api tid stream_url sdp : Text) → Body
  plain : (sdp : Text) → Body

pub record Request : Type 0 where
  pub url : Text
  pub content_type : Text
  pub body : Body

-- `xhr.open`, `xhr.setRequestHeader` and `xhr.send`
unfoldable pub request : Job → Text → Request
request (rtc conf tid) sdp = record {
  url = conf.api_url;
  content_type = codes "application/json";
  body = json conf.api_url tid conf.stream_url sdp;
}
request (whip url) sdp = record {
  url = url;
  content_type = codes "application/sdp";
  body = plain sdp;
}

-- What `resolve` is called with.
pub data Answer : Type 0 where
  reply : Reply → Answer
  text : Text → Answer

abbrev pub sdp_of : Answer → Text
sdp_of (reply r) = r.sdp
sdp_of (text t) = t

-- `xhr.onload`: `resolve`, `reject`, or an exception, which settles nothing.
pub data Verdict : Type 0 where
  accept : Answer → Verdict
  refuse throws : Verdict

abbrev pub judge : Option Reply → Verdict
judge none = throws
judge (some r) = if r.code then refuse else accept (reply r)

-- The body of WHIP and WHEP is a string, whose `code` is undefined.
abbrev pub read_body : Browser → Job → Text → Verdict
read_body b (rtc conf tid) body = judge (b.parse_json body)
read_body b (whip url) body = accept (text body)

unfoldable pub on_load : Browser → Job → ℕ → Text → Verdict
on_load b job status body =
    if not (status == 200) && not (status == 201) then refuse else read_body b job body

-- What the promise of the call is resolved with.
pub data Outcome : Type 0 where
  session : (sdp simulator : Text) → Outcome
  whip_session : WhipSession → Outcome

abbrev pub simulator_of : Prepared → Text
simulator_of conf =
    conf.schema
    ++ (codes "//"
        ++ (get (codes "server") conf.url_object.fields
            ++ (codes ":" ++ (print conf.port ++ codes "/rtc/v1/nack/"))))

unfoldable pub outcome : Browser → Job → Text → Answer → Outcome
outcome b (rtc conf tid) offer answer = session (sdp_of answer) (simulator_of conf)
outcome b (whip url) offer answer = whip_session (parse_id b.anchor url offer (sdp_of answer))

unfoldable pub needs_https : Browser → Bool
unfolding text_eq
needs_https b =
    not b.media
    && (text_eq b.window.protocol (codes "http:")
        && not (text_eq b.window.hostname (codes "localhost")))
