-- ===== src/Refresh/Simple/Laws.antt =====
-- A refresher never has two timers.
use go_live_streaming.Base.{
  ℕ, ◌+◌, ◌<◌, ◌≡◌, ◌⊎◌, inl, inr, Option-cases, Option, none, some, List, [], ◌∷◌, arith,
}
use go_live_streaming.Refresh.Simple.{
  Refresher, create, refresh_disable, refresh_enable, request, fire_delay, fire, Event, disables,
  enables, requests, fires, step, run,
}

record Inv (r : Refresher) : Type 0 where
  owned : (id delay : ℕ) → r.timers id ≡ some delay → r.handler ≡ some id
  fresh : (id delay : ℕ) → r.timers id ≡ some delay → id < r.next_timer

request-Inv : (timeout : ℕ) (r : Refresher) → Inv r → Inv (request timeout r)
unfolding request
request-Inv timeout r v = record {
  owned = λ id d e. ground (arith, v.owned id d, v.fresh id d);
  fresh = λ id d e. ground (arith, v.fresh id d);
}

fire_delay-Inv :
    (pending : Option ℕ) (id : ℕ) (r : Refresher) → Inv r → Inv (fire_delay pending id r)
unfolding fire_delay
fire_delay-Inv none id r v = v
fire_delay-Inv (some delay) id r v = record {
  owned = λ i d e. ground (arith, v.owned i d);
  fresh = λ i d e. ground (arith, v.fresh i d);
}

step-Inv : (r : Refresher) (e : Event) → Inv r → Inv (step r e)
unfolding step refresh_disable refresh_enable fire
step-Inv r disables v = record { owned = v.owned; fresh = v.fresh }
step-Inv r enables v = record { owned = v.owned; fresh = v.fresh }
step-Inv r (requests timeout) v = request-Inv timeout r v
step-Inv r (fires id) v = fire_delay-Inv (r.timers id) id r v

run-Inv : (r : Refresher) (es : List Event) → Inv r → Inv (run r es)
unfolding run
run-Inv r [] v = v
run-Inv r (e ∷ es) v = run-Inv (step r e) es (step-Inv r e v)

-- After every history, a request leaves exactly its own timer pending, with its delay, and the
-- callback is called when that timer fires, also while the refresher is disabled.
pub request_alone :
    (interval timeout : ℕ) (es : List Event)
    → let r = run (create interval) es in
      let r' = request timeout r in
      (r'.timers r.next_timer ≡ some timeout)
      × ((id : ℕ) → (id ≡ r.next_timer) ⊎ (r'.timers id ≡ none))
      × ((fire r.next_timer r').calls ≡ r.calls + 1)
unfolding request fire
request_alone interval timeout es =
    let v = run-Inv (create interval) es (record { owned = λ i d e. cc; fresh = λ i d e. cc }) in
    (
      ground arith,
      (λ id. elim (Option-cases ((request timeout (run (create interval) es)).timers id)) [
        | inl e ↦ inr e
        | inr (delay, e) ↦ inl (ground (arith, e, v.owned id delay))
      ]),
      ground arith,
    )
