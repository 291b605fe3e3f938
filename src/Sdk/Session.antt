-- ===== src/Sdk/Session.antt =====
-- One call of `publish` or `play` on an object of srs.sdk.js: SrsRtcPublisherAsync, SrsRtcPlayerAsync and
-- SrsRtcWhipWhepAsync. An async function is a state machine whose stages are its awaits; what it waits
-- for, and `close`, which a page may call at any time, are events. The peer connection is the list of
-- the calls made on it and on the server, newest first. A page makes one call on an object, and `T` is
-- the type of the tracks.
pub mod Order
pub mod Success
pub mod Closing
use go_live_streaming.Base.{
  ℕ, Bool, true, false, not, ◌&&◌, ◌||◌, Option, none, some, List, [], ◌∷◌, ◌++◌, ◌==◌,
  if◌then◌else◌,
}
use go_live_streaming.Base.Text.{Text, codes, text_eq, index_of?}
use go_live_streaming.Urls.Query.{Window}
use go_live_streaming.Urls.Rtmp.{Anchor, Prepared, get, print, prepare_url}
use go_live_streaming.Sdk.WhipId.{WhipSession, parse_id}
pub use go_live_streaming.Sdk.Exchange.{
  Reply, Browser, Job, Body, Request, Answer, Verdict, Outcome, rtc, whip, json, plain, reply, text,
  accept, refuse, throws, session, whip_session,
}
unfoldable pub use go_live_streaming.Sdk.Exchange.{
  request, on_load, outcome, needs_https, sdp_of, judge, read_body, simulator_of,
}

-- What it is rejected with: a TypeError, as of `self.pc` after `close`; the two errors of the SDK; what
-- the browser rejected; the request, with its status; or, in the copy of the demos, the reply or the
-- reason of jQuery.
pub data Failure : Type 0 where
  type_error https_required invalid_url browser_error : Failure
  refused : ℕ → Failure
  refused_reply : Reply → Failure
  ajax_error : Failure

pub data Direction : Type 0 where
  sendonly recvonly : Direction

pub data Call (T : Type 0) : Type 0 where
  add_transceiver : Text → Direction → Call T
  get_user_media create_offer : Call T
  add_track : T → Call T
  set_local set_remote : Text → Call T
  post : Request → Call T
  loaded : ℕ → Text → Call T

-- The await at which the call is suspended. The promise of the request has no one left to settle it
-- once the request has failed or its handler has thrown: the call is `hung`.
pub data Stage : Type 0 where
  idle : Stage
  capturing offering : Job → Stage
  setting_local requesting : Job → (offer : Text) → Stage
  setting_remote : Job → (offer : Text) → Answer → Stage
  hung : Stage
  done : Outcome → Stage
  failed : Failure → Stage

-- `is_open` says that `self.pc` is not null, and `stream` holds the tracks of `self.stream`.
pub record Session (T : Type 0) : Type 0 where
  pub is_open : Bool
  pub stream : List T
  pub calls : List (Call T)
  pub stage : Stage

abbrev pub either : Option ℕ → Option ℕ → Option ℕ
either none j = j
either (some i) j = some i

module _ {T : Type 0} where
  -- A new object.
  abbrev pub created : Session T
  created = record { is_open = true; stream = []; calls = []; stage = idle }

  abbrev pub fail : Failure → Session T → Session T
  fail why s = record s { stage = failed why }

  -- A statement that calls a method of `self.pc`.
  abbrev pub with_pc : Session T → Session T → Session T
  with_pc s next = if s.is_open then next else fail type_error s

  abbrev pub transceivers : Direction → List (Call T) → List (Call T)
  transceivers d calls =
      add_transceiver (codes "video") d ∷ add_transceiver (codes "audio") d ∷ calls

  -- The test for https, and getUserMedia, for what the test says and whether there are media devices.
  abbrev pub capture : Bool → Bool → Job → Session T → Session T
  capture true media job s = fail https_required s
  capture false true job s = record s { calls = get_user_media ∷ s.calls; stage = capturing job }
  capture false false job s = fail type_error s

  -- `publish` after its url was read.
  unfoldable pub start_publish : Browser → Job → Session T → Session T
  unfolding needs_https
  start_publish b job s =
      with_pc s
        (capture (needs_https b) b.media job (record s { calls = transceivers sendonly s.calls }))

  -- `play` after its url was read.
  unfoldable pub start_play : Job → Session T → Session T
  start_play job s =
      with_pc s
        (record s { calls = create_offer ∷ transceivers recvonly s.calls; stage = offering job })

  unfoldable pub publish : Browser → Text → Text → Session T → Session T
  unfolding start_publish
  publish b url tid =
      start_publish b (rtc (prepare_url b.anchor b.window (codes "/rtc/v1/publish/") url) tid)

  unfoldable pub play : Browser → Text → Text → Session T → Session T
  unfolding start_play
  play b url tid = start_play (rtc (prepare_url b.anchor b.window (codes "/rtc/v1/play/") url) tid)

  abbrev pub unless_found : Option ℕ → Session T → Session T → Session T
  unless_found none s next = fail invalid_url s
  unless_found (some i) s next = next

  unfoldable pub whip_publish : Browser → Text → Session T → Session T
  unfolding start_publish index_of?
  whip_publish b url s =
      unless_found (index_of? url (codes "/whip/")) s (start_publish b (whip url) s)

  unfoldable pub whip_play : Browser → Text → Session T → Session T
  unfolding start_play index_of?
  whip_play b url s =
      unless_found (either (index_of? url (codes "/whip-play/")) (index_of? url (codes "/whep/"))) s
        (start_play (whip url) s)

  abbrev pub add_tracks : List T → List (Call T) → List (Call T)
  add_tracks [] calls = calls
  add_tracks (t ∷ tracks) calls = add_tracks tracks (add_track t ∷ calls)

  -- After `getUserMedia`: every track goes to the connection and to the stream, and the offer is asked
  -- for.
  unfoldable pub on_captured : List T → Stage → Session T → Session T
  on_captured tracks (capturing job) s = with_pc s (record s {
    stream = s.stream ++ tracks;
    calls = create_offer ∷ add_tracks tracks s.calls;
    stage = offering job;
  })
  on_captured tracks _ s = s

  -- After `createOffer`.
  unfoldable pub on_offered : Text → Stage → Session T → Session T
  on_offered sdp (offering job) s =
      with_pc s (record s { calls = set_local sdp ∷ s.calls; stage = setting_local job sdp })
  on_offered sdp _ s = s

  -- After `setLocalDescription` the request is sent, and after `setRemoteDescription` the call returns.
  unfoldable pub on_set : Browser → Stage → Session T → Session T
  unfolding request outcome
  on_set b (setting_local job offer) s = record s {
    calls = post (request job offer) ∷ s.calls;
    stage = requesting job offer;
  }
  on_set b (setting_remote job offer answer) s = record s {
    stage = done (outcome b job offer answer);
  }
  on_set b _ s = s

  abbrev pub settle : Verdict → ℕ → Job → Text → Session T → Session T
  settle (accept answer) status job offer s = with_pc s (record s {
    calls = set_remote (sdp_of answer) ∷ s.calls;
    stage = setting_remote job offer answer;
  })
  settle refuse status job offer s = fail (refused status) s
  settle throws status job offer s = record s { stage = hung }

  unfoldable pub on_loaded : Browser → ℕ → Text → Stage → Session T → Session T
  unfolding on_load
  on_loaded b status body (requesting job offer) s =
      settle (on_load b job status body) status job offer
        (record s { calls = loaded status body ∷ s.calls })
  on_loaded b status body _ s = s

  -- A request that gets no response: there is no `xhr.onerror`.
  unfoldable pub on_network_failure : Stage → Session T → Session T
  on_network_failure (requesting job offer) s = record s { stage = hung }
  on_network_failure _ s = s

  -- The browser rejects what is awaited.
  unfoldable pub on_reject : Stage → Session T → Session T
  on_reject (capturing job) s = fail browser_error s
  on_reject (offering job) s = fail browser_error s
  on_reject (setting_local job offer) s = fail browser_error s
  on_reject (setting_remote job offer answer) s = fail browser_error s
  on_reject _ s = s

  unfoldable pub close : Session T → Session T
  close s = record s { is_open = false }

  -- `self.ontrack` of a remote track
  unfoldable pub on_track : T → Session T → Session T
  on_track t s = record s { stream = s.stream ++ t ∷ [] }

-- The four calls, what they wait for, `close`, and a remote track; `network_fails` is a request that
-- gets no response.
pub data Event (T : Type 0) : Type 0 where
  publishes plays : (url tid : Text) → Event T
  whip_publishes whip_plays : (url : Text) → Event T
  captures : List T → Event T
  offers : Text → Event T
  sets rejects network_fails closes : Event T
  loads : ℕ → Text → Event T
  tracks : T → Event T

module _ {T : Type 0} where
  abbrev pub when_idle : Stage → Session T → Session T → Session T
  when_idle idle s next = next
  when_idle _ s next = s

  unfoldable pub step : Browser → Session T → Event T → Session T
  unfolding publish play whip_publish whip_play on_captured on_offered on_set on_loaded
      on_network_failure on_reject close on_track
  step b s (publishes url tid) = when_idle s.stage s (publish b url tid s)
  step b s (plays url tid) = when_idle s.stage s (play b url tid s)
  step b s (whip_publishes url) = when_idle s.stage s (whip_publish b url s)
  step b s (whip_plays url) = when_idle s.stage s (whip_play b url s)
  step b s (captures ts) = on_captured ts s.stage s
  step b s (offers sdp) = on_offered sdp s.stage s
  step b s sets = on_set b s.stage s
  step b s rejects = on_reject s.stage s
  step b s network_fails = on_network_failure s.stage s
  step b s closes = close s
  step b s (loads status body) = on_loaded b status body s.stage s
  step b s (tracks t) = on_track t s

  unfoldable pub run : Browser → Session T → List (Event T) → Session T
  unfolding step
  run b s [] = s
  run b s (e ∷ es) = run b (step b s e) es
