-- ===== src/Console/Alert/Popover.antt =====
-- The directive bravoPopover of bravo_popover/popover.js: a box next to an element, which asks for a
-- confirmation if the element has one. Where the box stands is left to $position.
pub mod Laws
use go_live_streaming.Base.{
  ℕ, suc, ◌+◌, Bool, true, false, not, ◌&&◌, ◌||◌, Option, none, some, List, [], ◌∷◌, if◌then◌else◌,
}
use go_live_streaming.Base.Text.{Text, codes, text_eq, is_empty}

-- `attr['bravoPopoverConfirm'] ? 'click' : attr['trigger']`
abbrev pub trigger_of : Bool → Option Text → Option Text
trigger_of true trigger = some (codes "click")
trigger_of false trigger = trigger

-- What the element listens to: clicks, or an event that shows and one that hides.
pub data Trigger : Type 0 where
  by_click by_hover by_focus : Trigger

-- `!scope.trigger || scope.trigger == 'click'`, then `scope.trigger == 'hover'`
unfoldable pub listens : Option Text → Trigger
unfolding text_eq
listens none = by_click
listens (some t) =
    if is_empty t || text_eq t (codes "click")
    then by_click
    else if text_eq t (codes "hover")
    then by_hover
    else by_focus

-- `popoover_show == 'in'`, and how often the page was asked to do what was to be confirmed.
pub record Popover : Type 0 where
  pub trigger : Trigger
  pub shown : Bool
  pub confirms : ℕ

-- The link function, for the attributes bravo-popover-confirm and trigger.
unfoldable pub link : Bool → Option Text → Popover
unfolding listens
link confirm trigger = record {
  trigger = listens (trigger_of confirm trigger);
  shown = false;
  confirms = 0;
}

abbrev pub show_popover : Popover → Popover
show_popover s = record s { shown = true }

abbrev pub hide_popover : Popover → Popover
hide_popover s = record s { shown = false }

abbrev pub toggle : Popover → Popover
toggle s = if s.shown then hide_popover s else show_popover s

abbrev pub on_cancel : Popover → Popover
on_cancel s = record s { shown = false }

abbrev pub on_confirm : Popover → Popover
on_confirm s = record s { confirms = suc s.confirms; shown = false }

-- What the user does with the element, and with the buttons that the box has if it asks.
pub data Event : Type 0 where
  clicks mouse_enters mouse_leaves focuses blurs cancels confirms_it : Event

abbrev pub on_event : Trigger → Event → Popover → Popover
on_event by_click clicks s = toggle s
on_event by_hover mouse_enters s = show_popover s
on_event by_hover mouse_leaves s = hide_popover s
on_event by_focus focuses s = show_popover s
on_event by_focus blurs s = hide_popover s
on_event trigger cancels s = on_cancel s
on_event trigger confirms_it s = on_confirm s
on_event trigger e s = s

unfoldable pub step : Popover → Event → Popover
step s e = on_event s.trigger e s

unfoldable pub run : Popover → List Event → Popover
unfolding step
run s [] = s
run s (e ∷ es) = run (step s e) es
