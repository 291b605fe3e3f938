-- ===== src/Console/Objects/Complexes.antt =====
-- What `object2complex` makes of an object, path by path.
pub mod Keys
use go_live_streaming.Base.{
  ℕ, ◌≡◌, ◌≢◌, refl, sym, ap, ◌∙◌, ◌⊎◌, inl, inr, Bool, true, false, not, ◌&&◌, Option, none, some,
  List, [], ◌∷◌, ◌++◌, arith, Bool-cases, Option-cases, if◌then◌else◌,
}
use go_live_streaming.Base.Text.{Text, codes, text_eq, text_eq_iff, join}
use go_live_streaming.Base.Split.{Lacks, lacks→Lacks}
use mathlib.Core.List.{append_assoc}
use go_live_streaming.Utility.Strings.{system_string_trim}
use go_live_streaming.Utility.Strings.Ends.{system_string_trim_lem}
use go_live_streaming.Console.Objects.{
  Json, null, object, text, Members, end, member, Complex, setting, node, Fields, empty, field,
  member_of, set_field, string_of, key_of, trimmed, setting_of, as_node, by_type, field_of,
  and_then, object2complex, inner_of,
}

-- `fields[k]`
unfoldable pub field_at : Text → Fields → Option Complex
unfolding text_eq
field_at k empty = none
field_at k (field j c fs) = if text_eq j k then some c else field_at k fs

field_at-set_field :
    (k j : Text) (c : Complex) (fs : Fields)
    → field_at j (set_field k c fs) ≡ (if text_eq k j then some c else field_at j fs)
unfolding field_at set_field
field_at-set_field k j c empty = refl
field_at-set_field k j c (field i d fs) =
    ground (arith, text_eq_iff k j, text_eq_iff i k, text_eq_iff i j, field_at-set_field k j c fs)

-- What a member becomes.
abbrev pub made_of : Text → Json → Option Complex
unfolding field_of inner_of
made_of key v = field_of key (inner_of key v) v

next_of :
    (o : Option Complex) (next : Complex → Option Fields) (fs : Fields)
    → and_then o next ≡ some fs
    → (c : Complex) × (o ≡ some c) × (next c ≡ some fs)
next_of none next fs h = absurd (ground arith)
next_of (some c) next fs h = (c, refl, h)

member-none :
    (k j : Text) (v : Json) (ms : Members)
    → member_of k (member j v ms) ≡ none
    → (member_of k ms ≡ none) × (text_eq j k ≡ false)
unfolding member_of
member-none k j v ms h = ground arith

member_later :
    (k j : Text) (v w : Json) (ms : Members)
    → member_of k ms ≡ some w
    → member_of k (member j v ms) ≡ some w
unfolding member_of
member_later k j v w ms h = ground (arith, h)

member_here :
    (k j : Text) (v w : Json) (ms : Members)
    → member_of k ms ≡ none
    → member_of k (member j v ms) ≡ some w
    → (j ≡ k) × (v ≡ w)
unfolding member_of
member_here k j v w ms h m = ground (arith, h, m, text_eq_iff j k)

pub some_injective {ℓ} : {A : Type ℓ} {a b : A} → some a ≡ some b → a ≡ b
some_injective h = cc

-- A key that no member has keeps its field.
absent_field :
    (k : Text) (fields : Fields) (ms : Members) (prefix : Text) (fs : Fields)
    → object2complex fields ms prefix ≡ some fs
    → member_of k ms ≡ none
    → field_at k fs ≡ field_at k fields
unfolding object2complex member_of
absent_field k fields end prefix fs h m = ap (field_at k) (sym (some_injective h))
absent_field k fields (member j v ms) prefix fs h m =
    let (c, made, rest) =
      next_of (made_of (key_of prefix j) v) (λ c. object2complex (set_field j c fields) ms prefix)
        fs h in
    let (not_later, other) = member-none k j v ms m in
    let set = field_at-set_field j k c fields in
    absent_field k (set_field j c fields) ms prefix fs rest not_later ∙ (set ∙ rw other refl)

present_field :
    (k : Text) (v : Json) (fields : Fields) (ms : Members) (prefix : Text) (fs : Fields)
    → object2complex fields ms prefix ≡ some fs
    → member_of k ms ≡ some v
    → (c : Complex) × (made_of (key_of prefix k) v ≡ some c) × (field_at k fs ≡ some c)
unfolding object2complex member_of
present_field k v fields end prefix fs h m = absurd (ground arith)
present_field k v fields (member j w ms) prefix fs h m =
    let (c, made, rest) =
      next_of (made_of (key_of prefix j) w) (λ c. object2complex (set_field j c fields) ms prefix)
        fs h in
    elim (Option-cases (member_of k ms)) [
      | inr (u, later) ↦
          present_field k v (set_field j c fields) ms prefix fs rest
            (later ∙ (sym (member_later k j w u ms later) ∙ m))
      | inl no_later ↦
          let (same, value_same) = member_here k j w v ms no_later m in
          (
            c,
            rw (← same, ← value_same) made,
            absent_field k (set_field j c fields) ms prefix fs rest no_later
                ∙ (field_at-set_field j k c fields ∙ rw ((text_eq_iff j k).1 same) refl),
          )
    ]

-- The members of an object.
abbrev object_in : Option Json → Option Members
object_in (some (object ms)) = some ms
object_in _ = none

object_in-some : (o : Option Json) (ms : Members) → object_in o ≡ some ms → o ≡ some (object ms)
object_in-some (some (object inner)) ms h = ap (λ x. some (object x)) (some_injective h)
object_in-some _ ms h = absurd (ground arith)

-- The member at a path, for its first key and the others.
unfoldable pub member_at : Members → Text → List Text → Option Json
unfolding member_of
member_at ms k [] = member_of k ms
member_at ms k (j ∷ path) = elim (object_in (member_of k ms)) [
  | some inner ↦ member_at inner j path
  | none ↦ none
]

-- The field at a path.
unfoldable pub complex_at : Fields → Text → List Text → Option Complex
unfolding field_at
complex_at fs k [] = field_at k fs
complex_at fs k (j ∷ path) = elim (field_at k fs) [
  | some (node inner) ↦ complex_at inner j path
  | _ ↦ none
]

unfoldable pub key_at : Text → Text → List Text → Text
key_at prefix k [] = key_of prefix k
key_at prefix k (j ∷ path) = key_at (key_of prefix k) j path

-- No key of the path is "vhosts".
unfoldable pub OffVhosts : Text → Text → List Text → Type 0
unfolding text_eq
OffVhosts prefix k [] = text_eq (key_of prefix k) (codes "vhosts") ≡ false
OffVhosts prefix k (j ∷ path) =
    (text_eq (key_of prefix k) (codes "vhosts") ≡ false) × OffVhosts (key_of prefix k) j path

object_at :
    (ms : Members) (k j : Text) (path : List Text) (v : Json)
    → member_at ms k (j ∷ path) ≡ some v
    → (inner : Members) × (member_of k ms ≡ some (object inner)) × (member_at inner j path ≡ some v)
unfolding member_at
object_at ms k j path v h = elim (Option-cases (object_in (member_of k ms))) [
  | inl nothing ↦ absurd (ground (arith, h, nothing))
  | inr (inner, here) ↦
      (inner, object_in-some (member_of k ms) inner here, rw (member_at, here) at h)
]

made_off :
    (key : Text) (v : Json)
    → text_eq key (codes "vhosts") ≡ false
    → made_of key v ≡ by_type key (inner_of key v) v
unfolding made_of
made_off key v off = rw off refl

as_node-some :
    (o : Option Fields) (c : Complex)
    → as_node o ≡ some c
    → (fs : Fields) × (o ≡ some fs) × (c ≡ node fs)
as_node-some none c h = absurd (ground arith)
as_node-some (some fs) c h = (fs, refl, sym (some_injective h))

pub text_eq-false : (s t : Text) → s ≢ t → text_eq s t ≡ false
text_eq-false s t h = elim (Bool-cases (text_eq s t)) [
  | inl same ↦ absurd (h ((text_eq_iff s t).0 same))
  | inr other ↦ other
]

-- What an object becomes.
made_object :
    (key : Text) (inner : Members) (c : Complex)
    → text_eq key (codes "vhosts") ≡ false
    → made_of key (object inner) ≡ some c
    → (fs : Fields) × (object2complex empty inner key ≡ some fs) × (c ≡ node fs)
unfolding inner_of by_type
made_object key inner c off h =
    as_node-some (object2complex empty inner key) c (sym (made_off key (object inner) off) ∙ h)

at_node :
    (fs : Fields) (k j : Text) (path : List Text) (inner : Fields)
    → field_at k fs ≡ some (node inner)
    → complex_at fs k (j ∷ path) ≡ complex_at inner j path
unfolding complex_at
at_node fs k j path inner h = rw (complex_at, h) refl

pub path_field :
    (ms : Members) (prefix : Text) (fs : Fields) (k : Text) (path : List Text) (v : Json)
    → object2complex empty ms prefix ≡ some fs
    → member_at ms k path ≡ some v
    → OffVhosts prefix k path
    → (c : Complex) × (by_type (key_at prefix k path) (inner_of (key_at prefix k path) v) v
        ≡ some c)
      × (complex_at fs k path ≡ some c)
unfolding complex_at key_at OffVhosts member_at field_of
path_field ms prefix fs k [] v h m off =
    let (c, made, at_k) = present_field k v empty ms prefix fs h m in
    (c, sym (made_off (key_of prefix k) v off) ∙ made, at_k)
path_field ms prefix fs k (j ∷ path) v h m off =
    let (inner, here, there) = object_at ms k j path v m in
    let (c, made, at_k) = present_field k (object inner) empty ms prefix fs h here in
    let (inner_fs, inner_made, is_node) = made_object (key_of prefix k) inner c off.0 made in
    let (d, deeper, at_j) =
      path_field inner (key_of prefix k) inner_fs j path v inner_made there off.1 in
    (d, deeper, at_node fs k j path inner_fs (at_k ∙ ap some is_node) ∙ at_j)
