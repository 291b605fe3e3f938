-- ===== src/Console/Alert/Laws.antt =====
-- A box with alert-show is hidden exactly while it is not to be shown.
use mathlib.Core.Path.{subst}
use go_live_streaming.Base.{◌≡◌, refl, sym, ap, ◌∙◌, true, false, not, List, [], ◌∷◌, ◌++◌, arith}
use go_live_streaming.Console.Alert.{
  Alert, on_close, on_closed, digest, on_destory, Event, clicks, sets_show, step, run,
}

-- What the page shows agrees with `alert_show`, between the events.
pub record InStep (s : Alert) : Type 0 where
  pub is_manual : s.manual ≡ true
  pub digested : s.seen ≡ s.alert_show
  pub shown : s.hidden ≡ not s.alert_show

-- The value of `alert_show` changed, and the digest follows.
digest-InStep : (s : Alert) → s.manual ≡ true → s.hidden ≡ not s.seen → InStep (digest s)
unfolding digest
digest-InStep s m h = record {
  is_manual = ground (arith, m);
  digested = ground (arith, m, h);
  shown = ground (arith, m, h);
}

on_destory-manual :
    (s : Alert)
    → s.manual ≡ true
    → on_destory s ≡ digest (record s { calls = s.calls ++ on_close ∷ []; alert_show = false })
unfolding on_destory
on_destory-manual s m = rw m refl

step-InStep : (s : Alert) (e : Event) → InStep s → InStep (step s e)
unfolding step
step-InStep s (clicks false) v = v
step-InStep s (clicks true) v = subst InStep (sym (on_destory-manual s v.is_manual)) (
    digest-InStep (record s { calls = s.calls ++ on_close ∷ []; alert_show = false }) v.is_manual
      (v.shown ∙ ap not (sym v.digested)))
step-InStep s (sets_show show) v =
    digest-InStep (record s { alert_show = show }) v.is_manual (ground (arith, v.shown, v.digested))

-- In every history of a box that has alert-show, it is hidden exactly while that is false.
pub run-InStep : (s : Alert) (es : List Event) → InStep s → InStep (run s es)
unfolding run
run-InStep s [] v = v
run-InStep s (e ∷ es) v = run-InStep (step s e) es (step-InStep s e v)

-- Dismissing a box that is shown calls `on_close` and then `on_closed`; dismissing it again with
-- alert-show calls `on_close` only.
pub dismissed_twice :
    (s : Alert)
    → InStep s
    → s.alert_show ≡ true
    → s.calls ≡ []
    → (run s (clicks true ∷ clicks true ∷ [])).calls ≡ on_close ∷ on_closed ∷ on_close ∷ []
unfolding run step on_destory digest
dismissed_twice s v show none = ground (arith, v.is_manual, v.digested, show, none)
