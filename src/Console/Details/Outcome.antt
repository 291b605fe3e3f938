-- ===== src/Console/Details/Outcome.antt =====
-- After a failure the page of a stream shows nothing new.
use go_live_streaming.Base.{
  ℕ, ◌≡◌, refl, sym, ap, ◌∙◌, Option, none, some, List, [], ◌∷◌, arith, get_elem?, remove_at,
}
use mathlib.Core.Path.{subst}
use go_live_streaming.Console.Polling.{Answer, responds, errors}
use go_live_streaming.Console.Polling.Failures.{IsFailure}
use go_live_streaming.Console.Streams.{Stream}
use go_live_streaming.Console.Details.{
  Call, gets_stream, gets_owner, Body, Details, log, ask, on_success, http_error, on_answer,
  answered, Event, kickoff_stream, kickoff_client, answers, elsewhere, step, run,
}
use go_live_streaming.Console.Details.Shown.{weight, asked, asked-remove_at}

-- A callback of another request.
other_success :
    (c : Call) (body : Body) (now : ℕ) (s : Details)
    → weight c ≡ 0
    → ((on_success c body now s).stream ≡ s.stream) × ((on_success c body now s).waits ≡ s.waits)
unfolding on_success log
other_success (gets_stream id) body now s h = absurd (omega arith)
other_success (gets_owner st) body now s h = absurd (omega arith)
other_success c body now s h = (refl, refl)

other_answer :
    (c : Call) (a : Answer Body) (now : ℕ) (s : Details)
    → weight c ≡ 0
    → ((on_answer c a now s).stream ≡ s.stream) × ((on_answer c a now s).waits ≡ s.waits)
unfolding on_answer http_error
other_answer c (responds status code body) now s h =
    let (a, b) = other_success c body now s h in (ground (arith, a), ground (arith, b))
other_answer c (errors status response) now s h = (refl, refl)

failed_answer :
    (c : Call) (a : Answer Body) (now : ℕ) (s : Details)
    → IsFailure a
    → ((on_answer c a now s).stream ≡ s.stream) × ((on_answer c a now s).waits ≡ s.waits)
unfolding on_answer http_error
failed_answer c (responds status code body) now s h = (ground (arith, h), ground (arith, h))
failed_answer c (errors status response) now s h = (refl, refl)

-- Nothing is asked for that leads to a stream, and the page shows what it did.
record Settled (before : Option Stream) (s : Details) : Type 0 where
  none_asked : asked s.waits ≡ 0
  same : s.stream ≡ before

answered-Settled :
    (before : Option Stream) (o : Option Call) (i : ℕ) (a : Answer Body) (now : ℕ) (s : Details)
    → get_elem? s.waits i ≡ o
    → Settled before s
    → Settled before (answered o i a now s)
unfolding answered
answered-Settled before none i a now s e h = h
answered-Settled before (some c) i a now s e h =
    let split = asked-remove_at s.waits i c e in
    let (shown, left) =
      other_answer c a now (record s { waits = remove_at i s.waits })
        (omega (arith, split, h.none_asked)) in
    record { none_asked = omega (arith, ap asked left, split, h.none_asked); same = shown ∙ h.same }

run-Settled :
    (before : Option Stream) (s : Details) (es : List Event)
    → Settled before s
    → Settled before (run s es)
unfolding run step ask
run-Settled before s [] h = h
run-Settled before s (kickoff_stream cid ∷ es) h =
    run-Settled before (step s (kickoff_stream cid)) es
      (record { none_asked = omega (arith, h.none_asked); same = h.same })
run-Settled before s (kickoff_client id ∷ es) h =
    run-Settled before (step s (kickoff_client id)) es
      (record { none_asked = omega (arith, h.none_asked); same = h.same })
run-Settled before s (elsewhere w logs ∷ es) h =
    run-Settled before (step s (elsewhere w logs)) es
      (record { none_asked = h.none_asked; same = h.same })
run-Settled before s (answers i a now ∷ es) h =
    run-Settled before (step s (answers i a now)) es
      (answered-Settled before (get_elem? s.waits i) i a now s refl h)

failed-Settled :
    (c : Call) (i : ℕ) (a : Answer Body) (now : ℕ) (s : Details)
    → IsFailure a
    → get_elem? s.waits i ≡ some c
    → weight c ≡ asked s.waits
    → Settled s.stream (answered (some c) i a now s)
unfolding answered
failed-Settled c i a now s f e h =
    let split = asked-remove_at s.waits i c e in
    let (shown, left) = failed_answer c a now (record s { waits = remove_at i s.waits }) f in
    record { none_asked = omega (arith, ap asked left, split, h); same = shown }

-- If the only request that leads to the stream, the one for it or for its owner, fails, by an error or
-- with a code that is not 0, then what the page shows of a stream never changes again, whatever is
-- answered later: it is not asked for a second time.
pub failure_hides :
    (c : Call) (i : ℕ) (a : Answer Body) (now : ℕ) (s : Details) (es : List Event)
    → IsFailure a
    → get_elem? s.waits i ≡ some c
    → weight c ≡ asked s.waits
    → (run (step s (answers i a now)) es).stream ≡ s.stream
unfolding step
failure_hides c i a now s es f e h =
    (run-Settled s.stream (step s (answers i a now)) es (
      subst (λ o. Settled s.stream (answered o i a now s)) (sym e)
        (failed-Settled c i a now s f e h))).same
