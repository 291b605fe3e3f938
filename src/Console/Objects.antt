-- ===== src/Console/Objects.antt =====
-- `$sc_utility` of srs.console.js, its functions on arrays and objects. An object of JSON is the list of
-- its members in the order of insertion, and an array is the members under its indices; numbers are
-- naturals, and no key is `__proto__`. Where JavaScript throws a TypeError the result is `none`.
pub mod Complexes
pub mod Equals
pub mod Copies
mod Tests
use go_live_streaming.Base.{
  ℕ, Bool, true, false, not, ◌&&◌, Option, none, some, List, [], ◌∷◌, ◌++◌, if◌then◌else◌, map,
}
use go_live_streaming.Base.Text.{Text, codes, text_eq, join, is_empty}
use go_live_streaming.Base.Decimal.{dec}
use go_live_streaming.Utility.Strings.{system_string_trim}
use go_live_streaming.Utility.Arrays.{value, system_array_contains}

mutual
  pub data Json : Type 0 where
    undefined null : Json
    boolean : Bool → Json
    number : ℕ → Json
    text : Text → Json
    array object : Members → Json

  pub data Members : Type 0 where
    end : Members
    member : Text → Json → Members → Members

-- What `object2complex` makes: a setting, an object of settings, or the array of vhosts.
mutual
  pub data Complex : Type 0 where
    setting : (key : Text) (value : Json) (error : Bool) → Complex
    node : Fields → Complex
    vhosts : List Json → Complex

  pub data Fields : Type 0 where
    empty : Fields
    field : Text → Complex → Fields → Fields

-- The member under a key; a text of JSON may repeat a key, and the last one counts.
unfoldable pub member_of : Text → Members → Option Json
unfolding text_eq
member_of k end = none
member_of k (member j v ms) = elim (member_of k ms) [
  | some w ↦ some w
  | none ↦ if text_eq j k then some v else none
]

abbrev pub or_undefined : Option Json → Json
or_undefined none = undefined
or_undefined (some v) = v

-- `obj[k]`
unfoldable pub get_member : Text → Members → Json
unfolding member_of
get_member k ms = or_undefined (member_of k ms)

-- `obj[k] = v`
unfoldable pub set_member : Text → Json → Members → Members
unfolding text_eq
set_member k v end = member k v end
set_member k v (member j w ms) =
    let rest = set_member k v ms in if text_eq j k then member j v ms else member j w rest

unfoldable pub set_field : Text → Complex → Fields → Fields
unfolding text_eq
set_field k c empty = field k c empty
set_field k c (field j d fs) =
    let rest = set_field k c fs in if text_eq j k then field j c fs else field j d rest

unfoldable mutual
  unfolding join

  -- `String(v)`
  pub string_of : Json → Text
  string_of undefined = codes "undefined"
  string_of null = codes "null"
  string_of (boolean true) = codes "true"
  string_of (boolean false) = codes "false"
  string_of (number n) = dec n
  string_of (text t) = t
  string_of (array ms) = join (strings_of ms) (codes ",")
  string_of (object ms) = codes "[object Object]"

  -- The elements of an array in `String`
  pub strings_of : Members → List Text
  strings_of end = []
  strings_of (member k undefined ms) = [] ∷ strings_of ms
  strings_of (member k null ms) = [] ∷ strings_of ms
  strings_of (member k v ms) = string_of v ∷ strings_of ms

-- `e.vid = e.name`, which is ignored for a value that is not an object.
unfoldable pub set_vid : Json → Option Json
unfolding get_member set_member
set_vid undefined = none
set_vid null = none
set_vid (array ms) = some (array (set_member (codes "vid") (get_member (codes "name") ms) ms))
set_vid (object ms) = some (object (set_member (codes "vid") (get_member (codes "name") ms) ms))
set_vid v = some v

abbrev pub push_front : Option Json → Option (List Json) → Option (List Json)
push_front (some v) (some vs) = some (v ∷ vs)
push_front _ _ = none

-- The loop of `object2arr`, for a function `each` that may throw, and that changes its element.
unfoldable pub values_of : (Json → Option Json) → Members → Option (List Json)
values_of each end = some []
values_of each (member k v ms) = push_front (each v) (values_of each ms)

-- `object2arr(obj, each)`; the keys of a text are its letters.
unfoldable pub object2arr : (Json → Option Json) → Json → Option (List Json)
unfolding values_of
object2arr each (array ms) = values_of each ms
object2arr each (object ms) = values_of each ms
object2arr each (text t) = some (map (λ c. text (c ∷ [])) t)
object2arr each _ = some []

-- `prefix ? prefix + "." + k : k`
abbrev pub key_of : Text → Text → Text
key_of [] k = k
key_of (c ∷ prefix) k = (c ∷ prefix) ++ (codes "." ++ k)

abbrev pub trimmed : Option Text → Text → Text
trimmed none key = key
trimmed (some t) key = t

-- A field that is not an object: pithy_print_ms is made a text.
unfoldable pub setting_of : Text → Json → Complex
unfolding system_string_trim text_eq string_of
setting_of key v =
    setting (trimmed (system_string_trim key (codes "global.")) key)
      (if text_eq key (codes "pithy_print_ms") then text (string_of v) else v) false

abbrev pub as_vhosts : Option (List Json) → Option Complex
as_vhosts none = none
as_vhosts (some vs) = some (vhosts vs)

abbrev pub as_node : Option Fields → Option Complex
as_node none = none
as_node (some fs) = some (node fs)

-- The field of a key that is not "vhosts", for what an object of it becomes; null has no constructor.
abbrev pub by_type : Text → Option Complex → Json → Option Complex
unfolding setting_of
by_type key inner null = none
by_type key inner (object ms) = inner
by_type key inner v = some (setting_of key v)

abbrev pub field_of : Text → Option Complex → Json → Option Complex
unfolding text_eq object2arr set_vid
field_of key inner v =
    if text_eq key (codes "vhosts") then as_vhosts (object2arr set_vid v) else by_type key inner v

abbrev pub and_then : Option Complex → (Complex → Option Fields) → Option Fields
and_then none next = none
and_then (some c) next = next c

-- `object2complex(complex, obj, prefix)`, where no prefix is the empty text.
unfoldable mutual
  unfolding field_of

  pub object2complex : Fields → Members → Text → Option Fields
  object2complex complex end prefix = some complex
  object2complex complex (member k v ms) prefix =
      and_then (field_of (key_of prefix k) (inner_of (key_of prefix k) v) v)
        (λ c. object2complex (set_field k c complex) ms prefix)

  pub inner_of : Text → Json → Option Complex
  inner_of key (object ms) = as_node (object2complex empty ms key)
  inner_of key v = none

-- `array_actual_equals(a, b)`, for the operator `==` of the elements
module _ {A : Type 0} (eq : A → A → Bool) where
  abbrev pub all_in : List A → List A → Bool
  unfolding system_array_contains
  all_in b [] = true
  all_in b (x ∷ a) = system_array_contains eq b (value x) && all_in b a

  unfoldable pub array_actual_equals : List A → List A → Bool
  unfolding all_in
  array_actual_equals a b = all_in b a && all_in a b
