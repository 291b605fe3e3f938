-- ===== src/Console/Objects/Tests.antt =====
-- Objects and arrays at concrete inputs.
use go_live_streaming.Base.{◌≡◌, ◌≢◌, refl, false, none, some, [], ◌∷◌, arith, if◌then◌else◌}
use go_live_streaming.Base.Text.{Text, codes, text_eq, index_of?, starts_with}
use go_live_streaming.Utility.Strings.{system_string_trim, startswith_text, endswith_text}
use go_live_streaming.Console.Objects.{
  null, number, text, object, Members, end, member, setting, node, Fields, empty, field, string_of,
  set_field, setting_of, object2complex,
}
use go_live_streaming.Console.Objects.Complexes.{member_at, complex_at}
use go_live_streaming.Console.Objects.Complexes.Keys.{
  dotted_path, object2complex-member_at, object2complex_null,
}

abbrev listen : Members
listen = member (codes "listen") (number 1985) end

abbrev global : Members
global = member (codes "http_api") (object listen) end

abbrev global_complex : Fields
global_complex =
    field (codes "http_api")
      (node (field (codes "listen") (setting (codes "http_api.listen") (number 1985) false) empty))
      empty

global_made : object2complex empty global [] ≡ some global_complex
unfolding object2complex setting_of system_string_trim set_field startswith_text index_of?
    starts_with endswith_text
global_made = refl

listen_member : member_at global (codes "http_api") (codes "listen" ∷ []) ≡ some (number 1985)
unfolding member_at
listen_member = refl

http_api_vhosts : codes "http_api" ≢ codes "vhosts"
http_api_vhosts = ground arith

object2complex-member_at_example :
    (t : Text) × (system_string_trim
        (dotted_path global 104 (codes "ttp_api") (codes "listen" ∷ []))
        (codes "global.")
      ≡ some t)
    × (complex_at global_complex (codes "http_api") (codes "listen" ∷ [])
        ≡ some (
            setting t
              (if text_eq
                  (dotted_path global 104 (codes "ttp_api") (codes "listen" ∷ []))
                  (codes "pithy_print_ms")
                then text (string_of (number 1985))
                else number 1985)
              false))
object2complex-member_at_example =
    object2complex-member_at global 104 (codes "ttp_api") (codes "listen" ∷ []) global_complex
      (number 1985) global_made listen_member refl http_api_vhosts

abbrev with_null : Members
with_null = member (codes "http_api") (object (member (codes "listen") null end)) end

null_member : member_at with_null (codes "http_api") (codes "listen" ∷ []) ≡ some null
unfolding member_at
null_member = refl

null_throws : object2complex empty with_null [] ≡ none
null_throws =
    object2complex_null with_null 104 (codes "ttp_api") (codes "listen" ∷ []) null_member
      http_api_vhosts
