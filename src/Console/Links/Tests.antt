-- ===== src/Console/Links/Tests.antt =====
-- The text filters at concrete inputs.
use go_live_streaming.Base.{◌≡◌, refl, inr, []}
use go_live_streaming.Base.Text.{Text, codes, text_eq}
use go_live_streaming.Console.Links.{Stream, kept_params, sc_filter_less}
use go_live_streaming.Console.Links.StreamUrl.{IsNamed, IsQuery}

abbrev published : Stream
published = record { url = codes "/live/one"; tc_url = codes "rtmp://a.b/live?vhost=c"; name = [] }

abbrev vhost_query : Text
vhost_query = codes "?vhost=c"

published-IsNamed : IsNamed published (codes "one")
published-IsNamed = inr (refl, (codes "/live", refl))

vhost_query-IsQuery : IsQuery vhost_query
vhost_query-IsQuery = inr (codes "vhost=c", refl)

default_vhost : kept_params (codes "?vhost=__defaultVhost__") ≡ []
unfolding kept_params text_eq
default_vhost = refl

less_text : sc_filter_less (codes "0123456789abcdefgh") ≡ codes "0123456789abcde..."
unfolding sc_filter_less
less_text = refl
