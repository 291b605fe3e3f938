-- ===== src/Console/Alert.antt =====
-- The widgets of the console: the directive bravoAlert of bravo_alert/alert.js, a box that can be
-- dismissed.
pub mod Popover
pub mod Laws
use go_live_streaming.Base.{Bool, true, false, not, ◌&&◌, List, [], ◌∷◌, ◌++◌, if◌then◌else◌}

-- The calls of the callbacks of the page.
pub data Call : Type 0 where
  on_close on_closed : Call

-- `manual` says that the attribute alert-show is there; `seen` is the value of `alert_show` in the last
-- digest, `hidden` the class ng-hide.
pub record Alert : Type 0 where
  pub manual : Bool
  pub alert_show : Bool
  pub seen : Bool
  pub hidden : Bool
  pub calls : List Call

abbrev pub bool_eq : Bool → Bool → Bool
bool_eq true b = b
bool_eq false b = not b

-- `elem.addClass('ng-hide'); scope.on_closed();`
abbrev pub hide : Alert → Alert
hide s = record s { hidden = true; calls = s.calls ++ on_closed ∷ [] }

-- The watcher of `alert_show`, in a digest.
unfoldable pub digest : Alert → Alert
digest s =
    if bool_eq s.alert_show s.seen
    then s
    else let t = record s { seen = s.alert_show } in
      if t.alert_show then record t { hidden = false } else hide t

-- `scope.on_destory`
unfoldable pub on_destory : Alert → Alert
unfolding digest
on_destory s =
    let t = record s { calls = s.calls ++ on_close ∷ [] } in
    if s.manual then digest (record t { alert_show = false }) else hide t

-- A click in the box, on an element with data-dismiss or on another one; or the page sets `alert_show`.
pub data Event : Type 0 where
  clicks : (dismiss : Bool) → Event
  sets_show : Bool → Event

unfoldable pub step : Alert → Event → Alert
unfolding on_destory digest
step s (clicks dismiss) = if dismiss then on_destory s else s
step s (sets_show show) = digest (record s { alert_show = show })

unfoldable pub run : Alert → List Event → Alert
unfolding step
run s [] = s
run s (e ∷ es) = run (step s e) es
