-- ===== src/Players/SwfUrl/Tests.antt =====
-- The URL of the Flash file at concrete inputs.
use go_live_streaming.Base.{◌≡◌, refl, none, some, [], ◌∷◌}
use go_live_streaming.Base.Text.{codes, join, text_eq}
use go_live_streaming.Base.Dict.{assign}
use go_live_streaming.Players.SwfUrl.{
  srs_get_version_code, is_unreserved, utf8, encode_letter, encode_uri_component, param_text,
  param_texts, set_srs_player_url,
}

-- The usage in the comment of srs.player.js gives a URL with two marks.
two_marks :
    set_srs_player_url (codes "srs_player.swf?v=1.0.0") []
    ≡ some (codes "srs_player.swf?v=1.0.0?_version=1.33")
unfolding set_srs_player_url param_texts param_text encode_uri_component encode_letter is_unreserved
    utf8 srs_get_version_code assign join text_eq
two_marks = refl

-- A separator, and a letter of three bytes.
encoded_values :
    set_srs_player_url (codes "x.swf") ((codes "t", codes "a&播") ∷ [])
    ≡ some (codes "x.swf?t=a%26%E6%92%AD&_version=1.33")
unfolding set_srs_player_url param_texts param_text encode_uri_component encode_letter is_unreserved
    utf8 srs_get_version_code assign join text_eq
encoded_values = refl

-- A lone surrogate throws.
lone_surrogate : set_srs_player_url (codes "x.swf") ((codes "t", 97 ∷ 55357 ∷ []) ∷ []) ≡ none
unfolding set_srs_player_url param_texts param_text encode_uri_component encode_letter is_unreserved
    utf8 srs_get_version_code assign join text_eq
lone_surrogate = refl
