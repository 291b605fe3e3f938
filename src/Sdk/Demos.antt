-- ===== src/Sdk/Demos.antt =====
-- The copy of the SDK under demos/js/srs.sdk.js: its URL parser, and `publish` and `play` of
-- SrsRtcPublisherAsync and SrsRtcPlayerAsync, which send the request with `$.ajax` of jQuery. It calls
-- `done` with the parsed body, or `fail`.
pub mod Equivalence
pub mod Internal
pub mod Runs
use go_live_streaming.Base.{ℕ, Bool, true, false, List, [], ◌∷◌, ◌++◌, if◌then◌else◌}
use go_live_streaming.Base.Text.{Text, codes}
use go_live_streaming.Urls.Query.{Parsed, Window}
use go_live_streaming.Urls.Rtmp.{Anchor, Prepared, parse_with, prepared}
use go_live_streaming.Sdk.Session.{
  Reply, Browser, Job, rtc, reply, Stage, requesting, setting_remote, Call, create_offer,
  set_remote, sendonly, recvonly, offering, Session, refused_reply, ajax_error, fail, with_pc,
  transceivers, capture, when_idle, on_captured, on_offered, on_set, on_reject, close, on_track,
}

module _ (anchor : Text → Anchor) (w : Window) where
  unfoldable pub parse : Text → Parsed
  unfolding parse_with
  parse = parse_with anchor w 1985

  unfoldable pub prepare_url : Text → Text → Prepared
  unfolding parse prepared
  prepare_url default_path url = prepared w default_path (parse url)

pub data Event (T : Type 0) : Type 0 where
  publishes plays : (url tid : Text) → Event T
  captures : List T → Event T
  offers : Text → Event T
  sets rejects fails closes : Event T
  replies : Reply → Event T
  tracks : T → Event T

module _ {T : Type 0} where
  -- There is no test for https.
  unfoldable pub publish : Browser → Text → Text → Session T → Session T
  unfolding prepare_url
  publish b url tid s = with_pc s (
      capture false b.media (rtc (prepare_url b.anchor b.window (codes "/rtc/v1/publish/") url) tid)
        (record s { calls = transceivers sendonly s.calls }))

  unfoldable pub play : Browser → Text → Text → Session T → Session T
  unfolding prepare_url
  play b url tid s = with_pc s (record s {
    calls = create_offer ∷ transceivers recvonly s.calls;
    stage = offering (rtc (prepare_url b.anchor b.window (codes "/rtc/v1/play/") url) tid);
  })

  -- `done`: `resolve` or `reject`, and after it the answer is set.
  unfoldable pub on_done : Reply → Stage → Session T → Session T
  on_done r (requesting job offer) s =
      if r.code
      then fail (refused_reply r) s
      else with_pc s (record s {
        calls = set_remote r.sdp ∷ s.calls;
        stage = setting_remote job offer (reply r);
      })
  on_done r _ s = s

  unfoldable pub on_fail : Stage → Session T → Session T
  on_fail (requesting job offer) s = fail ajax_error s
  on_fail _ s = s

  unfoldable pub step : Browser → Session T → Event T → Session T
  unfolding publish play on_captured on_offered on_set on_reject close on_track on_done on_fail
  step b s (publishes url tid) = when_idle s.stage s (publish b url tid s)
  step b s (plays url tid) = when_idle s.stage s (play b url tid s)
  step b s (captures ts) = on_captured ts s.stage s
  step b s (offers sdp) = on_offered sdp s.stage s
  step b s sets = on_set b s.stage s
  step b s rejects = on_reject s.stage s
  step b s fails = on_fail s.stage s
  step b s closes = close s
  step b s (replies r) = on_done r s.stage s
  step b s (tracks t) = on_track t s

  unfoldable pub run : Browser → Session T → List (Event T) → Session T
  unfolding step
  run b s [] = s
  run b s (e ∷ es) = run b (step b s e) es
