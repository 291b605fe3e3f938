-- ===== src/Console/Alert/Popover/Laws.antt =====
-- What is to be confirmed is done once for each confirmation, and for nothing else.
use go_live_streaming.Base.{
  ℕ, suc, ◌+◌, ◌≡◌, refl, Bool, true, false, List, [], ◌∷◌, arith, if◌then◌else◌,
}
use go_live_streaming.Console.Alert.Popover.{
  Trigger, Popover, Event, clicks, mouse_enters, mouse_leaves, focuses, blurs, cancels, confirms_it,
  on_event, step, run,
}

-- The confirmations in a history.
abbrev pub confirmed : List Event → ℕ
confirmed [] = 0
confirmed (confirms_it ∷ es) = suc (confirmed es)
confirmed (_ ∷ es) = confirmed es

abbrev is_confirm : Event → ℕ
is_confirm confirms_it = 1
is_confirm _ = 0

toggle-confirms :
    (b : Bool) (s : Popover)
    → (if b then record s { shown = false } else record s { shown = true }).confirms ≡ s.confirms
toggle-confirms true s = refl
toggle-confirms false s = refl

on_event-confirms :
    (t : Trigger) (e : Event) (s : Popover) → (on_event t e s).confirms ≡ is_confirm e + s.confirms
on_event-confirms t clicks s = grind (arith, toggle-confirms s.shown s)
on_event-confirms t mouse_enters s = grind arith
on_event-confirms t mouse_leaves s = grind arith
on_event-confirms t focuses s = grind arith
on_event-confirms t blurs s = grind arith
on_event-confirms t cancels s = grind arith
on_event-confirms t confirms_it s = grind arith

step-confirms : (s : Popover) (e : Event) → (step s e).confirms ≡ is_confirm e + s.confirms
unfolding step
step-confirms s e = on_event-confirms s.trigger e s

confirmed-cons : (e : Event) (es : List Event) → confirmed (e ∷ es) ≡ is_confirm e + confirmed es
confirmed-cons e es = ground arith

-- Whatever the trigger is, the page is asked as often as the user confirms.
pub run-confirms : (s : Popover) (es : List Event) → (run s es).confirms ≡ confirmed es + s.confirms
unfolding run
run-confirms s [] = omega arith
run-confirms s (e ∷ es) =
    omega (arith, run-confirms (step s e) es, step-confirms s e, confirmed-cons e es)
