-- ===== src/Players/SwfUrl.antt =====
-- `set_srs_player_url` of srs.player.js, which makes the URL of the Flash file from its parameters, and
-- srs_get_version_code of srs.page.js. The values of the parameters are texts. A letter of a text is a
-- code point, so that a surrogate among them is a lone one, for which `encodeURIComponent` throws.
mod Tests
use go_live_streaming.Base.{
  ℕ, ◌+◌, ◌*◌, ◌/◌, ◌%◌, ltb, leb, Bool, true, false, Option, none, some, ◌&&◌, ◌||◌, List, [], ◌∷◌,
  ◌++◌, ◌==◌, if◌then◌else◌, map,
}
use go_live_streaming.Base.Text.{Text, codes, join}
use go_live_streaming.Base.Dict.{Dict, assign}

-- What follows a step that may throw.
infixl 5 ◌>>=◌
abbrev pub ◌>>=◌ : {A B : Type 0} → Option A → (A → Option B) → Option B
none >>= next = none
some a >>= next = next a

-- `srs_get_version_code()`
unfoldable pub srs_get_version_code : Text
srs_get_version_code = codes "1.33"

abbrev pub between : ℕ → ℕ → ℕ → Bool
between a b c = leb a c && leb c b

-- The letters that `encodeURIComponent` leaves: A-Z a-z 0-9 - _ . ! ~ * ' ( )
unfoldable pub is_unreserved : ℕ → Bool
is_unreserved c =
    between 65 90 c
    || (between 97 122 c
        || (between 48 57 c
            || (between 39 42 c || (between 45 46 c || (c == 33 || (c == 95 || c == 126))))))

abbrev pub hex : ℕ → ℕ
hex n = if ltb n 10 then 48 + n else 55 + n

-- "%" and two digits
abbrev pub percent : ℕ → Text
percent byte = 37 ∷ hex (byte / 16 % 16) ∷ hex (byte % 16) ∷ []

-- The bytes of a letter in UTF-8.
unfoldable pub utf8 : ℕ → List ℕ
utf8 c =
    if ltb c 128
    then c ∷ []
    else if ltb c 2048
    then (192 + c / 64) ∷ (128 + c % 64) ∷ []
    else if ltb c 65536
    then (224 + c / 4096) ∷ (128 + c / 64 % 64) ∷ (128 + c % 64) ∷ []
    else (240 + c / 262144) ∷ (128 + c / 4096 % 64) ∷ (128 + c / 64 % 64) ∷ (128 + c % 64) ∷ []

abbrev pub percents : List ℕ → Text
percents [] = []
percents (byte ∷ bytes) = percent byte ++ percents bytes

-- A lone surrogate
abbrev pub is_surrogate : ℕ → Bool
is_surrogate c = between 55296 57343 c

-- What `encodeURIComponent` makes of one letter, where it does not throw.
unfoldable pub encode_letter : ℕ → Option Text
unfolding is_unreserved utf8
encode_letter c =
    if is_surrogate c then none else some (if is_unreserved c then c ∷ [] else percents (utf8 c))

-- `encodeURIComponent(s)`, or none for its URIError
unfoldable pub encode_uri_component : Text → Option Text
unfolding encode_letter
encode_uri_component [] = some []
encode_uri_component (c ∷ s) = do
  first ← encode_letter c
  rest ← encode_uri_component s
  some (first ++ rest)

-- `p + "=" + encodeURIComponent(params[p])`
unfoldable pub param_text : Text × Text → Option Text
unfolding encode_uri_component
param_text (key, v) = do encoded ← encode_uri_component v; some ((key ++ codes "=") ++ encoded)

-- The loop that pushes them.
unfoldable pub param_texts : Dict Text → Option (List Text)
unfolding param_text
param_texts [] = some []
param_texts (p ∷ params) = do text ← param_text p; texts ← param_texts params; some (text ∷ texts)

-- `srs_player_url` after `set_srs_player_url(url, params)`, or none if that throws; no params are the
-- empty object.
unfoldable pub set_srs_player_url : Text → Dict Text → Option Text
unfolding param_texts srs_get_version_code assign join
set_srs_player_url url params = do
  texts ← param_texts (assign (codes "_version") srs_get_version_code params)
  some ((url ++ codes "?") ++ join texts (codes "&"))
