-- ===== src/Sdk/Demos/Runs/Histories.antt =====
-- Whole histories of the two copies.
use go_live_streaming.Base.{◌≡◌, refl, sym, ap, Bool, true, false, some, List, [], ◌∷◌}
use mathlib.Core.Path.{subst}
use go_live_streaming.Base.Text.{Text, codes}
use go_live_streaming.Urls.Rtmp.{Prepared}
use go_live_streaming.Urls.Rtmp as R
use go_live_streaming.Sdk.Session.{
  Reply, Browser, Job, rtc, Answer, Outcome, Stage, idle, capturing, offering, setting_local,
  requesting, setting_remote, hung, done, failed, Failure, type_error, browser_error, Session, Call,
  created, with_pc, transceivers, sendonly, capture, when_idle, on_captured, on_offered, on_set,
  on_loaded, on_reject, close, on_track, needs_https, on_load, start_publish, start_play, outcome,
  refused_reply, refused, ajax_error, reply, publishes, plays, captures, offers, sets, rejects,
  closes, loads, tracks,
}
use go_live_streaming.Sdk.Session as S
use go_live_streaming.Sdk.Demos.{Event, publish, play, on_done, on_fail, step, run}
use go_live_streaming.Sdk.Demos as D
use go_live_streaming.Sdk.Demos.Equivalence.{keeps_port, prepare_url-prepare_url}
use go_live_streaming.Sdk.Demos.Runs.{
  AlikeStage, both_idle, both_failed, both_offering, both_requesting, Alike, state, as_player,
  as_players, KeepsPort, AllKeepPort, on_captured-Alike, on_offered-Alike, on_set-Alike,
  on_reject-Alike, on_fail-Alike, on_load_read, replied, publish-Alike,
}

module _ {T : Type 0} (b : Browser) (json : Reply → Text) where
  publish_secure :
      (url tid : Text) (s : Session T)
      → needs_https b ≡ false
      → S.publish b url tid s
        ≡ with_pc s (
            capture false b.media
              (rtc (R.prepare_url b.anchor b.window (codes "/rtc/v1/publish/") url) tid)
              (record s { calls = transceivers sendonly s.calls }))
  unfolding S.publish
  publish_secure url tid s n =
      ap
        (λ https. with_pc s (
          capture https b.media
            (rtc (R.prepare_url b.anchor b.window (codes "/rtc/v1/publish/") url) tid)
            (record s { calls = transceivers sendonly s.calls })))
        n

  module _ (stream : List T) (calls calls' : List (Call T)) where
    on_done-Alike :
        (r : Reply) (up : Bool) {st st' : Stage}
        → b.parse_json (json r) ≡ some r
        → AlikeStage st st'
        → Alike
            (on_done r st (state up stream calls st))
            (on_loaded b 200 (json r) st' (state up stream calls' st'))
    unfolding on_done on_loaded
    on_done-Alike r up e (both_requesting c tid offer) =
        rw (on_load_read b stream calls calls' c tid (json r) r e) (
          replied b stream calls (S.loaded 200 (json r) ∷ calls') c tid offer (json r) r.code r.sdp
            up)
    on_done-Alike r up e h = record { is_open = refl; stream = refl; stage = h }

    start-Alike :
        (url tid : Text) (up : Bool) {st st' : Stage}
        → needs_https b ≡ false
        → keeps_port b.anchor url ≡ true
        → AlikeStage st st'
        → Alike
            (step b (state up stream calls st) (D.publishes url tid))
            (S.step b (state up stream calls' st') (publishes url tid))
    unfolding step S.step
    start-Alike url tid up n k both_idle =
        subst (λ x. Alike (publish b url tid (state up stream calls idle)) x)
          (sym (publish_secure url tid (state up stream calls' idle) n))
          (publish-Alike b stream calls calls' _ _ tid b.media up
            (prepare_url-prepare_url b.anchor b.window (codes "/rtc/v1/publish/") url k))
    start-Alike url tid up n k h = record { is_open = refl; stream = refl; stage = h }

    play-Alike :
        (url tid : Text) (up : Bool) {st st' : Stage}
        → keeps_port b.anchor url ≡ true
        → AlikeStage st st'
        → Alike
            (step b (state up stream calls st) (D.plays url tid))
            (S.step b (state up stream calls' st') (plays url tid))
    unfolding step S.step
    play-Alike url tid true k both_idle = record {
      is_open = refl;
      stream = refl;
      stage =
          rw (prepare_url-prepare_url b.anchor b.window (codes "/rtc/v1/play/") url k)
            (both_offering _ tid);
    }
    play-Alike url tid false k both_idle = record {
      is_open = refl;
      stream = refl;
      stage = both_failed type_error type_error;
    }
    play-Alike url tid up k h = record { is_open = refl; stream = refl; stage = h }

    step-components :
        (up : Bool) {st st' : Stage} (e : Event T)
        → needs_https b ≡ false
        → ((r : Reply) → b.parse_json (json r) ≡ some r)
        → KeepsPort b e
        → AlikeStage st st'
        → Alike
            (step b (state up stream calls st) e)
            (S.step b (state up stream calls' st') (as_player json e))
    unfolding step S.step
    step-components up (D.publishes url tid) n reads k h = start-Alike url tid up n k h
    step-components up (D.plays url tid) n reads k h = play-Alike url tid up k h
    step-components up (D.captures ts) n reads k h = on_captured-Alike b stream calls calls' ts up h
    step-components up (D.offers sdp) n reads k h = on_offered-Alike b stream calls calls' sdp up h
    step-components up D.sets n reads k h = on_set-Alike b stream calls calls' up h
    step-components up D.rejects n reads k h = on_reject-Alike b stream calls calls' up h
    step-components up D.fails n reads k h = on_fail-Alike b stream calls calls' up h
    step-components up D.closes n reads k h = record { is_open = refl; stream = refl; stage = h }
    step-components up (D.replies r) n reads k h = on_done-Alike r up (reads r) h
    step-components up (D.tracks t) n reads k h = record {
      is_open = refl;
      stream = refl;
      stage = h;
    }

  step-Alike :
      (s s' : Session T) (e : Event T)
      → needs_https b ≡ false
      → ((r : Reply) → b.parse_json (json r) ≡ some r)
      → KeepsPort b e
      → Alike s s'
      → Alike (step b s e) (S.step b s' (as_player json e))
  step-Alike s s' e n reads k h =
      let p = as_player json e in
      subst (λ up. Alike (step b s e) (S.step b (state up s'.stream s'.calls s'.stage) p)) h.is_open
        (subst
          (λ stream. Alike (step b s e) (S.step b (state s.is_open stream s'.calls s'.stage) p))
          h.stream (step-components s.stream s.calls s'.calls s.is_open e n reads k h.stage))

  runs-Alike :
      (s s' : Session T) (es : List (Event T))
      → needs_https b ≡ false
      → ((r : Reply) → b.parse_json (json r) ≡ some r)
      → AllKeepPort b es
      → Alike s s'
      → Alike (run b s es) (S.run b s' (as_players json es))
  unfolding run S.run
  runs-Alike s s' [] n reads k h = h
  runs-Alike s s' (e ∷ es) n reads k h =
      runs-Alike (step b s e) (S.step b s' (as_player json e)) es n reads k.1
        (step-Alike s s' e n reads k.0 h)

  -- On a page that needs no https, with a server whose replies are texts that `JSON.parse` reads, and
  -- for calls with URLs that keep their port: in every history an object of the demos' SDK is at the
  -- same await as one of the players' SDK, with the same tracks, the same answer and the same result,
  -- where a request that fails in the one has the status 500 in the other; or both calls have failed.
  pub run-Alike :
      (es : List (Event T))
      → needs_https b ≡ false
      → ((r : Reply) → b.parse_json (json r) ≡ some r)
      → AllKeepPort b es
      → Alike (run b created es) (S.run b created (as_players json es))
  run-Alike es n reads k =
      runs-Alike created created es n reads k
        (record { is_open = refl; stream = refl; stage = both_idle })
