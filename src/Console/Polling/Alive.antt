-- ===== src/Console/Polling/Alive.antt =====
-- While no request fails, a page that polls goes on polling.
use go_live_streaming.Base.{
  map, ℕ, ◌≡◌, ◌≢◌, refl, sym, ap, ◌∙◌, ◌⊎◌, inl, inr, true, false, Option, none, some, List, [],
  ◌∷◌, ◌++◌, arith, ◌==◌, Bool-cases, get_elem?,
}
use go_live_streaming.Refresh.{
  World, Timer, init, this_call, clear_timeout, schedule, set_timer, refresh_change, request, stop,
  fire,
}
use mathlib.Core.Path.{subst}
use go_live_streaming.Console.Polling.Asides.{aside_answered-Same}
use go_live_streaming.Console.Polling.{
  summary, vhosts, streams, clients, Request, polls, asks_vhosts, start, enter_streams, Page,
  Console, responds, errors, opened, log, enter, leave, fire_timer, on_success, on_answer, answered,
  Event, enters, leaves, fires, answers, kicks_client, kicks_stream, answers_aside, step, run,
  kickoff_client, kickoff_stream, aside_answered,
}

-- The callback of the refresher is set, and no hook keeps it from being called.
record Ready (w : World Page) : Type 0 where
  unguarded : w.guarded ≡ false
  configured :
      (this_call w).enabled ≡ true
      → (p : Page) × ((this_call w).pfn ≡ some p) × ((this_call w).timeout ≡ some 3000)

-- A timer will call the current callback.
abbrev pub Pending : World Page → Type 0
Pending w = (id : ℕ) × (t : Timer) × (w.timers id ≡ some t) × (t.call ≡ w.current)

init-Ready : Ready init
init-Ready = record { unguarded = refl; configured = λ e. absurd (ground arith) }

change-Ready : (p : Page) (w : World Page) → Ready w → Ready (refresh_change (some p) (some 3000) w)
unfolding refresh_change stop clear_timeout
change-Ready p w r = record {
  unguarded = ground (arith, r.unguarded);
  configured = λ e. (p, ground arith, ground arith);
}

change-pfn :
    (p : Page) (w : World Page) → (this_call (refresh_change (some p) (some 3000) w)).pfn ≡ some p
unfolding refresh_change
change-pfn p w = ground arith

change-timeout :
    (p : Page) (w : World Page)
    → (this_call (refresh_change (some p) (some 3000) w)).timeout ≡ some 3000
unfolding refresh_change
change-timeout p w = ground arith

request-Ready : (o : Option ℕ) (w : World Page) → Ready w → Ready (request o w)
unfolding request clear_timeout schedule set_timer
request-Ready o w r = record {
  unguarded = ground (arith, r.unguarded);
  configured = λ e. ground (arith, r.configured, e);
}

request-Pending :
    (w : World Page) (p : Page) (o : Option ℕ)
    → (this_call w).pfn ≡ some p
    → (this_call w).timeout ≡ some 3000
    → Pending (request o w)
unfolding request clear_timeout schedule set_timer
request-Pending w p none e f = (
  w.next_timer,
  record { call = w.current; delay = 3000 },
  ground (arith, e, f),
  ground (arith, e, f),
)
request-Pending w p (some d) e f = (
  w.next_timer,
  record { call = w.current; delay = d },
  ground (arith, e, f),
  ground (arith, e, f),
)

stop-Ready : (w : World Page) → Ready w → Ready (stop w)
unfolding stop
stop-Ready w r = record { unguarded = r.unguarded; configured = λ e. absurd (ground arith) }

stop-disabled : (w : World Page) → (this_call (stop w)).enabled ≡ false
unfolding stop
stop-disabled w = ground arith

fired : ℕ → World Page → World Page
fired id w = fire id true (record w { ran = [] })

fired-Ready : (id : ℕ) (w : World Page) → Ready w → Ready (fired id w)
unfolding fired fire
fired-Ready id w r = record {
  unguarded = ground (arith, r.unguarded);
  configured = λ e. ground (arith, r.configured, e);
}

-- Where a timer that will call the current callback fires, it calls it.
fired-calls :
    (id : ℕ) (t : Timer) (w : World Page)
    → Ready w
    → (this_call w).enabled ≡ true
    → w.timers id ≡ some t
    → t.call ≡ w.current
    → (fired id w).ran ≢ []
unfolding fired fire
fired-calls id t w r e f g =
    let (p, set, _) = r.configured e in ground (arith, r.unguarded, e, f, g, set)

-- Any other timer leaves it pending.
fired-keeps :
    (id j : ℕ) (t : Timer) (w : World Page)
    → (id == j) ≡ false
    → w.timers j ≡ some t
    → t.call ≡ w.current
    → Pending (fired id w)
unfolding fired fire
fired-keeps id j t w other f g = (j, t, ground (arith, other, f), ground (arith, g))

fired-enabled : (id : ℕ) (w : World Page) → (this_call (fired id w)).enabled ≡ (this_call w).enabled
unfolding fired fire
fired-enabled id w = ground arith

fired-Pending :
    (id : ℕ) (w : World Page)
    → Ready w
    → (this_call w).enabled ≡ true
    → Pending w
    → Pending (fired id w) ⊎ ((fired id w).ran ≢ [])
fired-Pending id w r e (j, t, f, g) = elim (Bool-cases (id == j)) [
  | inl same ↦
      let here : id ≡ j = ground arith in inr (fired-calls id t w r e (ap w.timers here ∙ f) g)
  | inr other ↦ inl (fired-keeps id j t w other f g)
]

-- The current page is waiting for a timer or for an answer.
pub record Live {D : Type 0} (s : Console D) : Type 0 where
  ready : Ready s.refresher
  pub alive : (this_call s.refresher).enabled ≡ true → Pending s.refresher ⊎ (s.in_flight ≢ [])

-- The answers to the pages are data with the code 0.
abbrev pub IsFine : {D : Type 0} → Event D → Type 0
IsFine (answers i (responds status code result) now) = code ≡ 0
IsFine (answers i (errors status response) now) = ⊥
IsFine _ = Unit

abbrev pub AllFine : {D : Type 0} → List (Event D) → Type 0
AllFine [] = Unit
AllFine (e ∷ es) = IsFine e × AllFine es

request-enabled :
    (o : Option ℕ) (w : World Page) → (this_call (request o w)).enabled ≡ (this_call w).enabled
unfolding request clear_timeout schedule set_timer
request-enabled o w = ground arith

append_not_nil : {A : Type 0} (xs ys : List A) → (xs ≢ []) ⊎ (ys ≢ []) → (xs ++ ys) ≢ []
append_not_nil [] ys (inl h) e = h refl
append_not_nil [] ys (inr h) e = h e
append_not_nil (x ∷ xs) ys h e = absurd (ground arith)

map_not_nil : (ps : List Page) → ps ≢ [] → map polls ps ≢ []
map_not_nil [] h e = h refl
map_not_nil (p ∷ ps) h e = absurd (ground arith)

module _ {D : Type 0} where
  start-Live : (page : Page) (now : ℕ) (s : Console D) → Ready s.refresher → Live (start page now s)
  unfolding start log
  start-Live page now s r = record {
    ready = request-Ready (some 0) _ (change-Ready page s.refresher r);
    alive = λ e. inl (
        request-Pending (refresh_change (some page) (some 3000) s.refresher) page (some 0)
          (change-pfn page s.refresher) (change-timeout page s.refresher));
  }

  enter-Live : (page : Page) (now : ℕ) (s : Console D) → Live s → Live (enter page now s)
  unfolding enter enter_streams log
  enter-Live summary now s v = start-Live summary now s v.ready
  enter-Live vhosts now s v = start-Live vhosts now s v.ready
  enter-Live streams now s v = record { ready = v.ready; alive = λ e. inr (ground arith) }
  enter-Live clients now s v = start-Live clients now s v.ready

  leave-Live : (s : Console D) → Live s → Live (leave s)
  unfolding leave
  leave-Live s v = record {
    ready = stop-Ready s.refresher v.ready;
    alive = λ e. let no = stop-disabled s.refresher in absurd (ground (arith, e, no));
  }

  fire_timer-Live : (id : ℕ) (s : Console D) → Live s → Live (fire_timer id s)
  unfolding fire_timer fired
  fire_timer-Live id s v = record {
    ready = fired-Ready id s.refresher v.ready;
    alive = λ e.
        let enabled = sym (fired-enabled id s.refresher) ∙ e in
        elim (v.alive enabled) [
          | inl pending ↦ elim (fired-Pending id s.refresher v.ready enabled pending) [
            | inl still ↦ inl still
            | inr called ↦ inr (append_not_nil _ s.in_flight (inl (map_not_nil _ called)))
          ]
          | inr waiting ↦
              inr (append_not_nil (map polls (fired id s.refresher).ran) s.in_flight (inr waiting))
        ];
  }

  on_success-Live :
      (q : Request) (result : D) (now : ℕ) (s : Console D)
      → Ready s.refresher
      → Live (on_success q result now s)
  unfolding on_success
  on_success-Live (polls page) result now s r = record {
    ready = request-Ready none s.refresher r;
    alive = λ e.
        let (p, set, delay) = r.configured (sym (request-enabled none s.refresher) ∙ e) in
        inl (request-Pending s.refresher p none set delay);
  }
  on_success-Live asks_vhosts result now s r = start-Live streams now s r

  answered-Live :
      (o : Option Request) (i status code : ℕ) (result : D) (now : ℕ) (s : Console D)
      → code ≡ 0
      → Live s
      → Live (answered o i (responds status code result) now s)
  unfolding answered
  answered-Live none i status code result now s h v = v
  answered-Live (some q) i status code result now s h v =
      let zero_code : (code == 0) ≡ true = ground arith in
      rw (on_answer, zero_code) (on_success-Live q result now _ v.ready)

  -- Between the requests that the polling waits for, nothing changes for it.
  Live-same :
      (s t : Console D) → t.refresher ≡ s.refresher → t.in_flight ≡ s.in_flight → Live s → Live t
  Live-same s t e f v =
      let (ready, alive) =
        subst (λ w. Ready w × ((this_call w).enabled ≡ true → Pending w ⊎ (t.in_flight ≢ [])))
          (sym e)
          (v.ready, λ on. subst (λ q. Pending s.refresher ⊎ (q ≢ [])) (sym f) (v.alive on)) in
      record { ready = ready; alive = alive }

  step-Live : (s : Console D) (e : Event D) → IsFine e → Live s → Live (step s e)
  unfolding step kickoff_client kickoff_stream
  step-Live s (enters page now) h v = enter-Live page now s v
  step-Live s leaves h v = leave-Live s v
  step-Live s (fires id) h v = fire_timer-Live id s v
  step-Live s (answers i (responds status code result) now) h v =
      answered-Live (get_elem? s.in_flight i) i status code result now s h v
  step-Live s (answers i (errors status response) now) h v = absurd h
  step-Live s (kicks_client id) h v = Live-same s (kickoff_client id s) refl refl v
  step-Live s (kicks_stream cid) h v = Live-same s (kickoff_stream cid s) refl refl v
  step-Live s (answers_aside i a now) h v =
      let same = aside_answered-Same (get_elem? s.asides i) i a now s in
      Live-same s (aside_answered (get_elem? s.asides i) i a now s) same.0 same.1.0 v

  run-Live : (s : Console D) (es : List (Event D)) → AllFine es → Live s → Live (run s es)
  unfolding run
  run-Live s [] h v = v
  run-Live s (e ∷ es) h v = run-Live (step s e) es h.1 (step-Live s e h.0 v)

  opened-Live : Live (opened {D = D})
  opened-Live = record { ready = init-Ready; alive = λ e. absurd (ground arith) }

  -- In every history in which the server answers the requests of the pages with the code 0 only: while
  -- the callback of a page is enabled, a timer that will call it is pending, or a request waits for its
  -- answer, which asks for the next round. Other requests, which kick off a client or a stream, may fail.
  pub run-polling :
      (es : List (Event D))
      → AllFine es
      → (this_call (run opened es).refresher).enabled ≡ true
      → Pending (run opened es).refresher ⊎ ((run opened es).in_flight ≢ [])
  run-polling es h e = (run-Live opened es h opened-Live).alive e
