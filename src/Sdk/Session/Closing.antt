-- ===== src/Sdk/Session/Closing.antt =====
-- `close` while a call is suspended, and requests that nothing settles.
use go_live_streaming.Base.{
  ℕ, ◌≡◌, refl, ◌∙◌, Bool, true, false, List, [], ◌∷◌, arith, Bool-cases, inl, inr, ◌⊎◌,
}
use go_live_streaming.Base.Text.{Text}
use go_live_streaming.Sdk.Session.{
  Browser, Job, throws, Call, post, loaded, Stage, requesting, setting_remote, hung, done, Session,
  Event, publishes, plays, whip_publishes, whip_plays, captures, offers, sets, rejects,
  network_fails, closes, loads, tracks, created, on_load, close, step, run,
}

-- The server's answer has been accepted.
abbrev pub is_answered : Stage → Bool
is_answered (setting_remote job offer answer) = true
is_answered (done r) = true
is_answered _ = false

module _ {T : Type 0} where
  -- The calls on the connection and the devices: those that are not about the request.
  abbrev pub connection_calls : List (Call T) → List (Call T)
  connection_calls [] = []
  connection_calls (post r ∷ calls) = connection_calls calls
  connection_calls (loaded status body ∷ calls) = connection_calls calls
  connection_calls (c ∷ calls) = c ∷ connection_calls calls

  -- What a step of a closed session leaves.
  record Kept (s s' : Session T) : Type 0 where
    closed : s'.is_open ≡ false
    silent : connection_calls s'.calls ≡ connection_calls s.calls
    unanswered : is_answered s.stage ≡ false → is_answered s'.stage ≡ false

  step-Kept : (b : Browser) (s : Session T) (e : Event T) → s.is_open ≡ false → Kept s (step b s e)
  unfolding step
  step-Kept b s (publishes url tid) h = ground arith
  step-Kept b s (plays url tid) h = ground arith
  step-Kept b s (whip_publishes url) h = ground arith
  step-Kept b s (whip_plays url) h = ground arith
  step-Kept b s (captures ts) h = ground arith
  step-Kept b s (offers sdp) h = ground arith
  step-Kept b s sets h = ground arith
  step-Kept b s rejects h = ground arith
  step-Kept b s network_fails h = ground arith
  step-Kept b s closes h = ground arith
  step-Kept b s (loads status body) h = ground arith
  step-Kept b s (tracks t) h = ground arith

  run-Kept :
      (b : Browser) (s : Session T) (es : List (Event T)) → s.is_open ≡ false → Kept s (run b s es)
  unfolding run
  run-Kept b s [] h = record { closed = h; silent = refl; unanswered = λ u. u }
  run-Kept b s (e ∷ es) h =
      let one = step-Kept b s e h in
      let rest = run-Kept b (step b s e) es one.closed in
      record {
        closed = rest.closed;
        silent = rest.silent ∙ one.silent;
        unanswered = λ u. rest.unanswered (one.unanswered u);
      }

  -- After `close`, in every history, nothing more is called on the connection or the devices, and a
  -- call that the server has not answered by then never returns, whatever comes later.
  pub close-run :
      (b : Browser) (before after : List (Event T))
      → (connection_calls (run b (close (run b created before)) after).calls
          ≡ connection_calls (run b created before).calls)
        × ((is_answered (run b created before).stage ≡ true)
            ⊎ (is_answered (run b (close (run b created before)) after).stage ≡ false))
  unfolding close
  close-run b before after =
      let kept = run-Kept b (close (run b created before)) after refl in
      (
        kept.silent,
        elim (Bool-cases (is_answered (run b created before).stage)) [
          | inl yes_answered ↦ inl yes_answered
          | inr not_answered ↦ inr (kept.unanswered not_answered)
        ],
      )

  hung-step :
      (b : Browser) (s : Session T) (e : Event T) → s.stage ≡ hung → (step b s e).stage ≡ hung
  unfolding step
  hung-step b s e h = ground arith

  hung-run :
      (b : Browser) (s : Session T) (es : List (Event T))
      → s.stage ≡ hung
      → (run b s es).stage ≡ hung
  unfolding run
  hung-run b s [] h = h
  hung-run b s (e ∷ es) h = hung-run b (step b s e) es (hung-step b s e h)

  -- A call whose request gets no response, or one with a good status whose body cannot be read, is
  -- never settled: it neither returns nor fails, whatever comes later, `close` included.
  pub network_failure_hangs :
      (b : Browser) (s : Session T) (job : Job) (offer : Text) (status : ℕ) (body : Text)
      (es : List (Event T))
      → s.stage ≡ requesting job offer
      → on_load b job status body ≡ throws
      → ((run b (step b s network_fails) es).stage ≡ hung)
        × ((run b (step b s (loads status body)) es).stage ≡ hung)
  unfolding step
  network_failure_hangs b s job offer status body es h e = (
    hung-run b (step b s network_fails) es (ground (arith, h)),
    hung-run b (step b s (loads status body)) es (ground (arith, h, e)),
  )
