-- ===== src/Players/Log/Laws.antt =====
-- The log element shows the last message, in one of the three styles.
use go_live_streaming.Base.{◌≡◌, refl, ◌∙◌, Bool, true, false, List, [], ◌∷◌, ◌++◌}
use go_live_streaming.Players.Log.{LogBox, Entry, infos, warns, errors, logged, run}

run-append :
    (off : Bool) (box : LogBox) (es : List Entry) (e : Entry)
    → run off box (es ++ e ∷ []) ≡ logged off e (run off box es)
unfolding run
run-append off box [] e = refl
run-append off box (d ∷ es) e = run-append off (logged off d box) es e

-- What was in the element does not matter for a message that is shown.
logged-forgets : (e : Entry) (box old : LogBox) → logged false e box ≡ logged false e old
unfolding logged
logged-forgets (infos desc) box old = refl
logged-forgets (warns code desc) box old = refl
logged-forgets (errors code desc) box old = refl

-- After any messages the element is as the last one alone would have left it.
pub run_last :
    (box : LogBox) (es : List Entry) (e : Entry) → run false box (es ++ e ∷ []) ≡ logged false e box
run_last box es e = run-append false box es e ∙ logged-forgets e (run false box es) box

-- With the log disabled, it stays as it is.
pub run_disabled : (box : LogBox) (es : List Entry) → run true box es ≡ box
unfolding run logged
run_disabled box [] = refl
run_disabled box (infos desc ∷ es) = run_disabled box es
run_disabled box (warns code desc ∷ es) = run_disabled box es
run_disabled box (errors code desc ∷ es) = run_disabled box es
