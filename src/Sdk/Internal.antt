-- ===== src/Sdk/Internal.antt =====
-- The `__internal` of SrsRtcPlayerAsync in srs.sdk.js, which is written out again beside that of
-- SrsRtcPublisherAsync, with another default path, and the `fill_query` of both.
use go_live_streaming.Base.{[], ◌++◌, some, none, if◌then◌else◌}
use go_live_streaming.Base.Text.{Text, codes, text_eq, replace}
use go_live_streaming.Base.Dict.{lookup}
use go_live_streaming.Urls.Query.{Parsed, Window, number, str, truthy, or_else}
use go_live_streaming.Urls.Query as Query
use go_live_streaming.Urls.Rtmp.{
  Anchor, http_url, schema_of, rtc_port, url_fields, fix_port, Prepared, prepare_url, with_slash,
  extra_queries, print, get,
}

-- `fill_query` of the publisher
unfoldable pub fill_query : Text → Parsed → Parsed
unfolding Query.fill_query
fill_query query_string obj = Query.fill_query query_string obj

-- `fill_query` of the player
unfoldable pub play_fill_query : Text → Parsed → Parsed
unfolding Query.fill_query
play_fill_query query_string obj = Query.fill_query query_string obj

module _ (anchor : Text → Anchor) (w : Window) where
  -- `parse` of the player
  unfoldable pub play_parse : Text → Parsed
  unfolding http_url schema_of rtc_port url_fields play_fill_query fix_port
  play_parse url =
      let a = anchor (http_url url) in
      let schema = schema_of url in
      fix_port schema w 1985 (
        play_fill_query a.search
          (record { fields = url_fields url a (rtc_port url schema a); user_query = [] }))

  -- `prepareUrl` of the player
  unfoldable pub play_prepare_url : Text → Prepared
  unfolding play_parse with_slash extra_queries replace text_eq lookup
  play_prepare_url url =
      let o = play_parse url in
      let schema : Text = elim (truthy (lookup (codes "schema") o.user_query)) [
        | some v ↦ print v ++ codes ":"
        | none ↦ w.protocol
      ] in
      let port =
        if text_eq schema (codes "https:")
        then or_else (truthy (lookup (codes "port") o.fields)) (number 443)
        else or_else (truthy (lookup (codes "port") o.fields)) (number 1985) in
      let path =
        or_else (truthy (lookup (codes "play") o.user_query)) (str (codes "/rtc/v1/play/")) in
      let api = with_slash (print path) in
      let start =
        schema
        ++ (codes "//" ++ (get (codes "server") o.fields ++ (codes ":" ++ (print port ++ api)))) in
      record {
        api_url =
            replace (start ++ extra_queries o.user_query) (api ++ codes "&") (api ++ codes "?");
        stream_url = get (codes "url") o.fields;
        schema = schema;
        url_object = o;
        port = port;
      }

  -- `prepareUrl` of the publisher, with its default path
  unfoldable pub publish_prepare_url : Text → Prepared
  unfolding prepare_url
  publish_prepare_url url = prepare_url anchor w (codes "/rtc/v1/publish/") url
