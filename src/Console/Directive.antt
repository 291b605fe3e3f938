-- ===== src/Console/Directive.antt =====
-- The directive scDirective of srs.console.js: one setting that can be edited in place. A change of
-- `editing` reaches the watcher in the digest that follows the click, and is modelled with it.
pub mod Laws
pub mod Link
use go_live_streaming.Base.{
  ℕ, Bool, true, false, not, ◌&&◌, Option, none, some, List, [], ◌∷◌, if◌then◌else◌,
}
use go_live_streaming.Base.Text.{Text, codes, text_eq, split, join}

-- `data.value`
pub data Value : Type 0 where
  undefined : Value
  boolean : Bool → Value
  str : Text → Value
  array : List Text → Value

-- `scdArray === "true"`, `scdBool === "true"` and `scdDefault`
pub record Config : Type 0 where
  pub is_array : Bool
  pub is_bool : Bool
  pub default : Option Text

-- `data` is `none` where the server has not set the option.
pub record Editor : Type 0 where
  pub editing : Bool
  pub value : Option Value
  pub old_init : Bool
  pub old_value : Value

-- The scope after a handler, and whether it threw a TypeError.
abbrev pub Outcome : Type 0
Outcome = Editor × Bool

abbrev pub comma : ℕ
comma = 44

abbrev pub fresh : Option Value → Editor
fresh value = record { editing = false; value = value; old_init = false; old_value = undefined }

abbrev pub or_undefined : Option Value → Value
or_undefined none = undefined
or_undefined (some v) = v

-- `$scope.data.value = $scope.data.value.join(",")`; only arrays have `join`.
unfoldable pub join_value : Value → Editor → Outcome
join_value (array xs) s = (record s { value = some (str (join xs (comma ∷ []))) }, false)
join_value _ s = (s, true)

-- The watcher, at the change from `ov` to `nv`.
unfoldable pub watch : Config → Bool → Bool → Editor → Outcome
unfolding join_value
watch c nv ov s =
    if not nv && not nv
    then (s, false)
    else let v = or_undefined s.value in
      let defined = record s { value = some v } in
      let saved =
        if s.old_init then defined else record defined { old_value = v; old_init = true } in
      if nv && not ov && c.is_array then join_value v saved else (saved, false)

-- The click on edit, with the digest.
pub edit : Config → Editor → Outcome
unfolding watch
edit c s = if s.editing then (s, false) else watch c true false (record s { editing = true })

-- What the user types into the field.
pub type_text : Text → Editor → Editor
type_text t s = record s { value = some (str t) }

-- `if (array === "true" && typeof data.value === "string") data.value = data.value.split(",")`
unfoldable pub split_value : Option Value → Editor → Outcome
split_value none s = (s, true)
split_value (some (str t)) s = (record s { value = some (array (split t comma)) }, false)
split_value (some _) s = (s, false)

abbrev pub reset : Editor → Editor
reset s = record s { editing = false; old_init = false; old_value = undefined }

abbrev pub finish : Bool → Outcome → Outcome
finish accepted (s, true) = (s, true)
finish accepted (s, false) = if s.old_init && not accepted then (s, false) else (reset s, false)

-- `accepted` is what `submit()` returns.
pub commit : Config → Bool → Editor → Outcome
unfolding split_value
commit c accepted s = finish accepted (if c.is_array then split_value s.value s else (s, false))

-- `data.value = v`, where `data` is an object.
abbrev pub assign_value : Value → Editor → Outcome
assign_value v s = elim (s.value) [
  | none ↦ (s, true)
  | some _ ↦ (record s { value = some v }, false)
]

pub load_default : Config → Editor → Outcome
load_default c s = elim (c.default) [
  | none ↦ (s, false)
  | some d ↦
      if c.is_bool
      then assign_value (boolean (text_eq d (codes "true"))) s
      else if c.is_array
      then assign_value (array (split d comma)) s
      else assign_value (str d) s
]

abbrev pub then_do : Outcome → (Editor → Outcome) → Outcome
then_do (s, true) next = (s, true)
then_do (s, false) next = next s

pub cancel : Config → Editor → Outcome
cancel c s = then_do (if s.old_init then assign_value s.old_value s else (s, false)) λ t.
    then_do (if c.is_array then assign_value t.old_value t else (t, false)) λ u. (reset u, false)
