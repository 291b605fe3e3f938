-- ===== src/Sdk/Demos/Internal.antt =====
-- What srs.sdk.js of the demos writes out again: the `__internal` of its SrsRtcPlayerAsync, the
-- `fill_query` of both objects, and SrsRtcFormatSenders, which is the function of the players.
use go_live_streaming.Base.{◌≡◌, refl, Option, List, []}
use go_live_streaming.Base.Text.{Text, codes}
use go_live_streaming.Urls.Query.{Parsed, Window}
use go_live_streaming.Urls.Query as Query
use go_live_streaming.Urls.Rtmp.{
  Anchor, http_url, schema_of, rtmp_port, url_fields, fix_port, Prepared, prepared,
}
use go_live_streaming.Sdk.Senders as Senders
use go_live_streaming.Sdk.Senders.{Sender}
use go_live_streaming.Sdk.Demos.{prepare_url}

-- `fill_query` of the publisher
unfoldable pub fill_query : Text → Parsed → Parsed
unfolding Query.fill_query
fill_query query_string obj = Query.fill_query query_string obj

-- `fill_query` of the player
unfoldable pub play_fill_query : Text → Parsed → Parsed
unfolding Query.fill_query
play_fill_query query_string obj = Query.fill_query query_string obj

module _ (anchor : Text → Anchor) (w : Window) where
  -- `parse` of the player
  unfoldable pub play_parse : Text → Parsed
  unfolding http_url schema_of rtmp_port url_fields play_fill_query fix_port
  play_parse url =
      let a = anchor (http_url url) in
      let schema = schema_of url in
      fix_port schema w 1985 (
        play_fill_query a.search
          (record { fields = url_fields url a (rtmp_port schema a.port); user_query = [] }))

  -- `prepareUrl` of the player
  unfoldable pub play_prepare_url : Text → Prepared
  unfolding play_parse prepared
  play_prepare_url url = prepared w (codes "/rtc/v1/play/") (play_parse url)

  -- It is that of the publisher, for another default path.
  pub play_prepare_url-prepare_url :
      (url : Text) → play_prepare_url url ≡ prepare_url anchor w (codes "/rtc/v1/play/") url
  unfolding play_prepare_url prepare_url
  play_prepare_url-prepare_url url = refl

-- `SrsRtcFormatSenders(senders, kind)`
unfoldable pub srs_rtc_format_senders : List Sender → Text → Option Text
unfolding Senders.srs_rtc_format_senders
srs_rtc_format_senders senders kind = Senders.srs_rtc_format_senders senders kind
