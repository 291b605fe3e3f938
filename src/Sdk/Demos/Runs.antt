-- ===== src/Sdk/Demos/Runs.antt =====
-- Histories of the copy of the demos against those of the SDK of the players.
pub mod Histories
use go_live_streaming.Base.{◌≡◌, refl, sym, ap, Bool, true, false, some, List, [], ◌∷◌}
use mathlib.Core.Path.{subst}
use go_live_streaming.Base.Text.{Text, codes}
use go_live_streaming.Urls.Rtmp.{Prepared}
use go_live_streaming.Urls.Rtmp as R
use go_live_streaming.Sdk.Session.{
  Reply, Browser, Job, rtc, Answer, Outcome, Stage, idle, capturing, offering, setting_local,
  requesting, setting_remote, hung, done, failed, Failure, type_error, browser_error, Session, Call,
  created, with_pc, transceivers, sendonly, capture, when_idle, on_captured, on_offered, on_set,
  on_loaded, on_reject, close, on_track, needs_https, on_load, start_publish, start_play, outcome,
  refused_reply, refused, ajax_error, reply, publishes, plays, captures, offers, sets, rejects,
  closes, loads, tracks,
}
use go_live_streaming.Sdk.Session as S
use go_live_streaming.Sdk.Demos.{Event, publish, play, on_done, on_fail, step, run}
use go_live_streaming.Sdk.Demos as D
use go_live_streaming.Sdk.Demos.Equivalence.{keeps_port, prepare_url-prepare_url}

-- The same await, or two failures.
pub data AlikeStage : Stage → Stage → Type 0 where
  both_idle : AlikeStage idle idle
  both_capturing :
      (c : Prepared) (tid : Text) → AlikeStage (capturing (rtc c tid)) (capturing (rtc c tid))
  both_offering :
      (c : Prepared) (tid : Text) → AlikeStage (offering (rtc c tid)) (offering (rtc c tid))
  both_setting_local :
      (c : Prepared) (tid offer : Text)
      → AlikeStage (setting_local (rtc c tid) offer) (setting_local (rtc c tid) offer)
  both_requesting :
      (c : Prepared) (tid offer : Text)
      → AlikeStage (requesting (rtc c tid) offer) (requesting (rtc c tid) offer)
  both_setting_remote :
      (c : Prepared) (tid offer : Text) (answer : Answer)
      → AlikeStage
          (setting_remote (rtc c tid) offer answer)
          (setting_remote (rtc c tid) offer answer)
  both_done : (r : Outcome) → AlikeStage (done r) (done r)
  both_failed : (a b : Failure) → AlikeStage (failed a) (failed b)

-- Two objects that a page cannot tell apart but by the reason of a failure.
pub record Alike {T : Type 0} (s s' : Session T) : Type 0 where
  pub is_open : s.is_open ≡ s'.is_open
  pub stream : s.stream ≡ s'.stream
  pub stage : AlikeStage s.stage s'.stage

module _ {T : Type 0} where
  abbrev state : Bool → List T → List (Call T) → Stage → Session T
  state up stream calls st = record { is_open = up; stream = stream; calls = calls; stage = st }

  -- An answer of the server as an event of the players' SDK: a failed request is a status 500.
  abbrev pub as_player : (Reply → Text) → Event T → S.Event T
  as_player json (D.publishes url tid) = publishes url tid
  as_player json (D.plays url tid) = plays url tid
  as_player json (D.captures ts) = captures ts
  as_player json (D.offers sdp) = offers sdp
  as_player json D.sets = sets
  as_player json D.rejects = rejects
  as_player json D.fails = loads 500 []
  as_player json D.closes = closes
  as_player json (D.replies r) = loads 200 (json r)
  as_player json (D.tracks t) = tracks t

  abbrev pub as_players : (Reply → Text) → List (Event T) → List (S.Event T)
  as_players json [] = []
  as_players json (e ∷ es) = as_player json e ∷ as_players json es

  -- The URLs of the calls keep their port.
  abbrev pub KeepsPort : Browser → Event T → Type 0
  KeepsPort b (D.publishes url tid) = keeps_port b.anchor url ≡ true
  KeepsPort b (D.plays url tid) = keeps_port b.anchor url ≡ true
  KeepsPort b _ = Unit

  abbrev pub AllKeepPort : Browser → List (Event T) → Type 0
  AllKeepPort b [] = Unit
  AllKeepPort b (e ∷ es) = KeepsPort b e × AllKeepPort b es

module _ {T : Type 0} (b : Browser) (stream : List T) (calls calls' : List (Call T)) where
  kept :
      (up : Bool) {st st' : Stage}
      → AlikeStage st st'
      → Alike (state up stream calls st) (state up stream calls' st')
  kept up h = record { is_open = refl; stream = refl; stage = h }

  on_captured-Alike :
      (ts : List T) (up : Bool) {st st' : Stage}
      → AlikeStage st st'
      → Alike
          (on_captured ts st (state up stream calls st))
          (on_captured ts st' (state up stream calls' st'))
  unfolding on_captured
  on_captured-Alike ts true (both_capturing c tid) = record {
    is_open = refl;
    stream = refl;
    stage = both_offering c tid;
  }
  on_captured-Alike ts false (both_capturing c tid) = record {
    is_open = refl;
    stream = refl;
    stage = both_failed type_error type_error;
  }
  on_captured-Alike ts up h = record { is_open = refl; stream = refl; stage = h }

  on_offered-Alike :
      (sdp : Text) (up : Bool) {st st' : Stage}
      → AlikeStage st st'
      → Alike
          (on_offered sdp st (state up stream calls st))
          (on_offered sdp st' (state up stream calls' st'))
  unfolding on_offered
  on_offered-Alike sdp true (both_offering c tid) = record {
    is_open = refl;
    stream = refl;
    stage = both_setting_local c tid sdp;
  }
  on_offered-Alike sdp false (both_offering c tid) = record {
    is_open = refl;
    stream = refl;
    stage = both_failed type_error type_error;
  }
  on_offered-Alike sdp up h = record { is_open = refl; stream = refl; stage = h }

  on_set-Alike :
      (up : Bool) {st st' : Stage}
      → AlikeStage st st'
      → Alike (on_set b st (state up stream calls st)) (on_set b st' (state up stream calls' st'))
  unfolding on_set
  on_set-Alike up (both_setting_local c tid offer) = record {
    is_open = refl;
    stream = refl;
    stage = both_requesting c tid offer;
  }
  on_set-Alike up (both_setting_remote c tid offer answer) = record {
    is_open = refl;
    stream = refl;
    stage = both_done (outcome b (rtc c tid) offer answer);
  }
  on_set-Alike up h = record { is_open = refl; stream = refl; stage = h }

  on_reject-Alike :
      (up : Bool) {st st' : Stage}
      → AlikeStage st st'
      → Alike (on_reject st (state up stream calls st)) (on_reject st' (state up stream calls' st'))
  unfolding on_reject
  on_reject-Alike up (both_capturing c tid) = record {
    is_open = refl;
    stream = refl;
    stage = both_failed browser_error browser_error;
  }
  on_reject-Alike up (both_offering c tid) = record {
    is_open = refl;
    stream = refl;
    stage = both_failed browser_error browser_error;
  }
  on_reject-Alike up (both_setting_local c tid offer) = record {
    is_open = refl;
    stream = refl;
    stage = both_failed browser_error browser_error;
  }
  on_reject-Alike up (both_setting_remote c tid offer answer) = record {
    is_open = refl;
    stream = refl;
    stage = both_failed browser_error browser_error;
  }
  on_reject-Alike up h = record { is_open = refl; stream = refl; stage = h }

  on_fail-Alike :
      (up : Bool) {st st' : Stage}
      → AlikeStage st st'
      → Alike
          (on_fail st (state up stream calls st))
          (on_loaded b 500 [] st' (state up stream calls' st'))
  unfolding on_fail on_loaded on_load
  on_fail-Alike up (both_requesting c tid offer) = record {
    is_open = refl;
    stream = refl;
    stage = both_failed ajax_error (refused 500);
  }
  on_fail-Alike up h = record { is_open = refl; stream = refl; stage = h }

  -- A body that is read as the reply.
  on_load_read :
      (c : Prepared) (tid body : Text) (r : Reply)
      → b.parse_json body ≡ some r
      → on_load b (rtc c tid) 200 body ≡ S.judge (some r)
  unfolding on_load
  on_load_read c tid body r h = ap S.judge h

  replied :
      (c : Prepared) (tid offer body : Text) (code : Bool) (sdp : Text) (up : Bool)
      → Alike
          (on_done
            (record { code = code; sdp = sdp })
            (requesting (rtc c tid) offer)
            (state up stream calls (requesting (rtc c tid) offer)))
          (S.settle
            (S.judge (some (record { code = code; sdp = sdp })))
            200
            (rtc c tid)
            offer
            (state up stream calls' (requesting (rtc c tid) offer)))
  unfolding on_done
  replied c tid offer body true sdp up = record {
    is_open = refl;
    stream = refl;
    stage = both_failed (refused_reply (record { code = true; sdp = sdp })) (refused 200);
  }
  replied c tid offer body false sdp true = record {
    is_open = refl;
    stream = refl;
    stage = both_setting_remote c tid offer (reply (record { code = false; sdp = sdp }));
  }
  replied c tid offer body false sdp false = record {
    is_open = refl;
    stream = refl;
    stage = both_failed type_error type_error;
  }

  -- `publish` and `play` of the two copies, for the same prepared URL.
  publish-Alike :
      (c c' : Prepared) (tid : Text) (media up : Bool)
      → c ≡ c'
      → Alike
          (with_pc
            (state up stream calls idle)
            (capture false media (rtc c tid) (state up stream (transceivers sendonly calls) idle)))
          (with_pc (state up stream calls' idle) (
            capture false media (rtc c' tid) (state up stream (transceivers sendonly calls') idle)))
  publish-Alike c c' tid true true e = record {
    is_open = refl;
    stream = refl;
    stage = rw e (both_capturing c' tid);
  }
  publish-Alike c c' tid false true e = record {
    is_open = refl;
    stream = refl;
    stage = both_failed type_error type_error;
  }
  publish-Alike c c' tid media false e = record {
    is_open = refl;
    stream = refl;
    stage = both_failed type_error type_error;
  }
