-- ===== src/Console/Links.antt =====
-- The text filters of srs.console.js, and the links and flags of `$sc_utility`. A text that is missing
-- is the empty text, which is as falsy.
pub mod StreamUrl
mod Tests
use go_live_streaming.Base.{
  ℕ, ltb, Bool, true, false, not, ◌&&◌, ◌||◌, Option, none, some, List, [], ◌∷◌, ◌++◌,
  if◌then◌else◌, length, take, drop, ◌==◌,
}
use go_live_streaming.Base.Text.{
  Text, codes, text_eq, index_of?, last_index_of?, slice, replace, is_empty,
}
use go_live_streaming.Base.Decimal.{dec}

-- `sc_filter_less`
unfoldable pub sc_filter_less : Text → Text
sc_filter_less v = if ltb 15 (length v) then slice v 0 15 ++ codes "..." else v

-- `sc_filter_style_error`
unfoldable pub sc_filter_style_error : Bool → Text
sc_filter_style_error v = if v then codes "alert-danger" else []

-- A client or a stream as `sc_filter_streamURL` reads it.
pub record Stream : Type 0 where
  pub url : Text
  pub tc_url : Text
  pub name : Text

-- `pos < 0 ? '' : s.substr(pos)`
abbrev pub from_index : Option ℕ → Text → Text
from_index none s = []
from_index (some i) s = drop i s

-- `pos < 0 ? s : s.substr(0, pos)`
abbrev pub up_to_index : Option ℕ → Text → Text
up_to_index none s = s
up_to_index (some i) s = take i s

abbrev pub or_text : Text → Text → Text
or_text [] default = default
or_text (c ∷ t) default = c ∷ t

-- `if (streamName && streamName.indexOf('/') !== 0) streamName = '/' + streamName`
abbrev pub with_slash : Text → Text
with_slash [] = []
with_slash (c ∷ t) = if c == 47 then c ∷ t else 47 ∷ c ∷ t

unfoldable pub kept_params : Text → Text
unfolding text_eq
kept_params params =
    if text_eq params (codes "?vhost=__defaultVhost__")
      || text_eq params (codes "?domain=__defaultVhost__")
    then []
    else params

unfoldable pub stream_url : Stream → Text
unfolding index_of? last_index_of? kept_params
stream_url v =
    let name = with_slash (or_text v.name (from_index (last_index_of? v.url (codes "/")) v.url)) in
    let mark = index_of? v.tc_url (codes "?") in
    (up_to_index mark v.tc_url ++ name) ++ kept_params (from_index mark v.tc_url)

-- `sc_filter_streamURL`
unfoldable pub sc_filter_stream_url : Option Stream → Text
unfolding stream_url
sc_filter_stream_url none = []
sc_filter_stream_url (some v) = if is_empty v.url then [] else stream_url v
