-- ===== src/Sdk/Session/Order.antt =====
-- The protocol of a call: what was called on the connection and on the server, in which order, at
-- every await.
use go_live_streaming.Base.{ℕ, ◌≡◌, refl, Bool, true, false, Option, none, some, List, [], ◌∷◌}
use go_live_streaming.Base.Text.{Text}
use go_live_streaming.Sdk.Session.{
  Browser, Job, Answer, Verdict, accept, refuse, throws, Outcome, sendonly, recvonly, Call,
  get_user_media, create_offer, set_local, set_remote, post, loaded, Stage, idle, capturing,
  offering, setting_local, requesting, setting_remote, hung, done, failed, Failure, Session, Event,
  publishes, plays, whip_publishes, whip_plays, captures, offers, sets, rejects, network_fails,
  closes, loads, tracks, created, transceivers, add_tracks, request, sdp_of, on_load, outcome,
  start_publish, start_play, publish, play, whip_publish, whip_play, on_captured, on_offered,
  on_set, settle, on_loaded, on_network_failure, on_reject, step, run, unless_found, capture,
  when_idle, needs_https, whip,
}

module _ {T : Type 0} where
  -- What a call does before it asks for the offer: `publish` adds transceivers that send, asks for the
  -- devices and adds their tracks, and `play` adds transceivers that receive.
  pub data Prelude : List (Call T) → Type 0 where
    publishing : (ts : List T) → Prelude (add_tracks ts (get_user_media ∷ transceivers sendonly []))
    playing : Prelude (transceivers recvonly [])

  -- A call that has returned: the offer was made and set, that very offer was posted, the server
  -- answered with a status and a body that are accepted, and that answer was set.
  pub data Completed (b : Browser) : List (Call T) → Outcome → Type 0 where
    completed :
        {before : List (Call T)} (job : Job) (offer : Text) (status : ℕ) (body : Text)
        (answer : Answer)
        → Prelude before
        → on_load b job status body ≡ accept answer
        → Completed b
            (set_remote (sdp_of answer)
              ∷ loaded status body
              ∷ post (request job offer)
              ∷ set_local offer
              ∷ create_offer
              ∷ before)
            (outcome b job offer answer)

  -- The calls that were made when the call is suspended at an await.
  pub data At (b : Browser) : Stage → List (Call T) → Type 0 where
    at_idle : At b idle []
    at_capturing : (job : Job) → At b (capturing job) (get_user_media ∷ transceivers sendonly [])
    at_offering :
        {before : List (Call T)} (job : Job)
        → Prelude before
        → At b (offering job) (create_offer ∷ before)
    at_setting_local :
        {before : List (Call T)} (job : Job) (offer : Text)
        → Prelude before
        → At b (setting_local job offer) (set_local offer ∷ create_offer ∷ before)
    at_requesting :
        {before : List (Call T)} (job : Job) (offer : Text)
        → Prelude before
        → At b
            (requesting job offer)
            (post (request job offer) ∷ set_local offer ∷ create_offer ∷ before)
    at_setting_remote :
        {before : List (Call T)} (job : Job) (offer : Text) (status : ℕ) (body : Text)
        (answer : Answer)
        → Prelude before
        → on_load b job status body ≡ accept answer
        → At b (setting_remote job offer answer) (
            set_remote (sdp_of answer)
            ∷ loaded status body
            ∷ post (request job offer)
            ∷ set_local offer
            ∷ create_offer
            ∷ before)
    at_done : {calls : List (Call T)} (r : Outcome) → Completed b calls r → At b (done r) calls
    at_hung : (calls : List (Call T)) → At b hung calls
    at_failed : (why : Failure) (calls : List (Call T)) → At b (failed why) calls

module _ {T : Type 0} (b : Browser) where
  abbrev StateAt : Session T → Type 0
  StateAt s = At b s.stage s.calls

  abbrev state : Bool → List T → List (Call T) → Stage → Session T
  state up stream calls st = record { is_open = up; stream = stream; calls = calls; stage = st }

  on_captured-At :
      (ts : List T) (up : Bool) (stream : List T) (calls : List (Call T)) (st : Stage)
      → At b st calls
      → StateAt (on_captured ts st (state up stream calls st))
  unfolding on_captured
  on_captured-At ts true stream calls (capturing job) (at_capturing _) =
      at_offering job (publishing ts)
  on_captured-At ts false stream calls (capturing job) h = at_failed _ _
  on_captured-At ts up stream calls _ h = h

  on_offered-At :
      (sdp : Text) (up : Bool) (stream : List T) (calls : List (Call T)) (st : Stage)
      → At b st calls
      → StateAt (on_offered sdp st (state up stream calls st))
  unfolding on_offered
  on_offered-At sdp true stream calls (offering job) (at_offering _ p) = at_setting_local job sdp p
  on_offered-At sdp false stream calls (offering job) h = at_failed _ _
  on_offered-At sdp up stream calls _ h = h

  on_set-At :
      (up : Bool) (stream : List T) (calls : List (Call T)) (st : Stage)
      → At b st calls
      → StateAt (on_set b st (state up stream calls st))
  unfolding on_set
  on_set-At up stream calls (setting_local job offer) (at_setting_local _ _ p) =
      at_requesting job offer p
  on_set-At up stream calls (setting_remote job offer answer)
        (at_setting_remote _ _ status body _ p e) =
      at_done _ (completed job offer status body answer p e)
  on_set-At up stream calls _ h = h

  settle-At :
      (v : Verdict) (status : ℕ) (body : Text) (up : Bool) (stream : List T)
      (before : List (Call T)) (job : Job) (offer : Text)
      → Prelude before
      → on_load b job status body ≡ v
      → StateAt (
          settle v status job offer (
            state up stream
              (loaded status body
                ∷ post (request job offer)
                ∷ set_local offer
                ∷ create_offer
                ∷ before)
              (requesting job offer)))
  settle-At (accept answer) status body true stream before job offer p e =
      at_setting_remote job offer status body answer p e
  settle-At (accept answer) status body false stream before job offer p e = at_failed _ _
  settle-At refuse status body up stream before job offer p e = at_failed _ _
  settle-At throws status body up stream before job offer p e = at_hung _

  on_loaded-At :
      (status : ℕ) (body : Text) (up : Bool) (stream : List T) (st : Stage) (calls : List (Call T))
      → At b st calls
      → StateAt (on_loaded b status body st (state up stream calls st))
  unfolding on_loaded
  on_loaded-At status body up stream (requesting job offer) calls (at_requesting _ _ p) =
      settle-At (on_load b job status body) status body up stream _ job offer p refl
  on_loaded-At status body up stream _ calls h = h

  on_network_failure-At :
      (up : Bool) (stream : List T) (calls : List (Call T)) (st : Stage)
      → At b st calls
      → StateAt (on_network_failure st (state up stream calls st))
  unfolding on_network_failure
  on_network_failure-At up stream calls (requesting job offer) h = at_hung _
  on_network_failure-At up stream calls _ h = h

  on_reject-At :
      (up : Bool) (stream : List T) (calls : List (Call T)) (st : Stage)
      → At b st calls
      → StateAt (on_reject st (state up stream calls st))
  unfolding on_reject
  on_reject-At up stream calls (capturing job) h = at_failed _ _
  on_reject-At up stream calls (offering job) h = at_failed _ _
  on_reject-At up stream calls (setting_local job offer) h = at_failed _ _
  on_reject-At up stream calls (setting_remote job offer answer) h = at_failed _ _
  on_reject-At up stream calls _ h = h

  capture-At :
      (https media up : Bool) (stream : List T) (job : Job)
      → StateAt (capture https media job (state up stream (transceivers sendonly []) idle))
  capture-At true media up stream job = at_failed _ _
  capture-At false true up stream job = at_capturing job
  capture-At false false up stream job = at_failed _ _

  start_publish-At :
      (job : Job) (up : Bool) (stream : List T)
      → StateAt (start_publish b job (state up stream [] idle))
  unfolding start_publish
  start_publish-At job true stream = capture-At (needs_https b) b.media true stream job
  start_publish-At job false stream = at_failed _ _

  start_play-At :
      (job : Job) (up : Bool) (stream : List T) → StateAt (start_play job (state up stream [] idle))
  unfolding start_play
  start_play-At job true stream = at_offering job playing
  start_play-At job false stream = at_failed _ _

  unless_found-At :
      (i : Option ℕ) (s next : Session T) → StateAt next → StateAt (unless_found i s next)
  unless_found-At none s next h = at_failed _ _
  unless_found-At (some i) s next h = h

  -- A call begins on an object that made none.
  when_idle-At :
      (start : Session T → Session T)
      → ((up : Bool) (stream : List T) → StateAt (start (state up stream [] idle)))
      → (up : Bool) (stream : List T) (calls : List (Call T)) (st : Stage) → At b st calls
      → StateAt (when_idle st (state up stream calls st) (start (state up stream calls st)))
  when_idle-At start k up stream calls idle at_idle = k up stream
  when_idle-At start k up stream calls _ h = h

  step-At : (s : Session T) (e : Event T) → StateAt s → StateAt (step b s e)
  unfolding step
  step-At s (publishes url tid) h =
      when_idle-At (publish b url tid) (λ up stream. start_publish-At _ up stream) s.is_open
        s.stream s.calls s.stage h
  step-At s (plays url tid) h =
      when_idle-At (play b url tid) (λ up stream. start_play-At _ up stream) s.is_open s.stream
        s.calls s.stage h
  step-At s (whip_publishes url) h =
      when_idle-At (whip_publish b url)
        (λ up stream. unless_found-At _ _ _ (start_publish-At (whip url) up stream)) s.is_open
        s.stream s.calls s.stage h
  step-At s (whip_plays url) h =
      when_idle-At (whip_play b url)
        (λ up stream. unless_found-At _ _ _ (start_play-At (whip url) up stream)) s.is_open s.stream
        s.calls s.stage h
  step-At s (captures ts) h = on_captured-At ts s.is_open s.stream s.calls s.stage h
  step-At s (offers sdp) h = on_offered-At sdp s.is_open s.stream s.calls s.stage h
  step-At s sets h = on_set-At s.is_open s.stream s.calls s.stage h
  step-At s rejects h = on_reject-At s.is_open s.stream s.calls s.stage h
  step-At s network_fails h = on_network_failure-At s.is_open s.stream s.calls s.stage h
  step-At s closes h = h
  step-At s (loads status body) h = on_loaded-At status body s.is_open s.stream s.stage s.calls h
  step-At s (tracks t) h = h

  run-At : (s : Session T) (es : List (Event T)) → StateAt s → StateAt (run b s es)
  unfolding run
  run-At s [] h = h
  run-At s (e ∷ es) h = run-At (step b s e) es (step-At s e h)

  -- In every history of a new object, and at every await: the calls on the connection and the server
  -- are those of the protocol so far, in its order. A call that has returned did all of it: the
  -- offer that was made was set and posted, the server answered with a status and a body that are
  -- accepted, and that answer was set and is what the result is of.
  pub run-created-At :
      (es : List (Event T)) → At b (run b created es).stage (run b created es).calls
  run-created-At es = run-At created es at_idle
