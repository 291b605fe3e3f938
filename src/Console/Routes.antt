-- ===== src/Console/Routes.antt =====
-- The two languages of the console, srs.en.js and srs.cn.js: their routes and the texts of their filters.
-- Angular's router, which matches a path against the routes, is not modelled. A value that a filter
-- tests is a Boolean here.
pub mod Laws
mod Tests
use go_live_streaming.Base.{
  Bool, true, false, Option, none, some, List, [], ◌∷◌, ◌++◌, if◌then◌else◌,
}
use go_live_streaming.Base.Text.{Text, codes, text_eq}

pub data Controller : Type 0 where
  csc_connect csc_vhosts csc_vhost csc_streams csc_stream csc_clients csc_client csc_configs
        csc_summary :
      Controller

pub record Route : Type 0 where
  pub path : Text
  pub template_url : Text
  pub controller : Controller

abbrev pub when : Text → Text → Controller → Route
when path template controller = record {
  path = path;
  template_url = template;
  controller = controller;
}

-- What `otherwise` redirects to.
abbrev pub redirect_to : Text
redirect_to = codes "/connect"

unfoldable pub routes_en : List Route
routes_en =
    when (codes "/connect") (codes "views/connect_en.html") csc_connect
    ∷ when (codes "/vhosts") (codes "views/vhosts_en.html") csc_vhosts
    ∷ when (codes "/vhosts/:id") (codes "views/vhost_en.html") csc_vhost
    ∷ when (codes "/streams") (codes "views/streams_en.html") csc_streams
    ∷ when (codes "/streams/:id") (codes "views/stream_en.html") csc_stream
    ∷ when (codes "/clients") (codes "views/clients_en.html") csc_clients
    ∷ when (codes "/clients/:id") (codes "views/client_en.html") csc_client
    ∷ when (codes "/configs") (codes "views/configs_en.html") csc_configs
    ∷ when (codes "/summaries") (codes "views/summary_en.html") csc_summary
    ∷ []

unfoldable pub routes_cn : List Route
routes_cn =
    when (codes "/connect") (codes "views/connect.html") csc_connect
    ∷ when (codes "/vhosts") (codes "views/vhosts.html") csc_vhosts
    ∷ when (codes "/vhosts/:id") (codes "views/vhost.html") csc_vhost
    ∷ when (codes "/streams") (codes "views/streams.html") csc_streams
    ∷ when (codes "/streams/:id") (codes "views/stream.html") csc_stream
    ∷ when (codes "/clients") (codes "views/clients.html") csc_clients
    ∷ when (codes "/clients/:id") (codes "views/client.html") csc_client
    ∷ when (codes "/configs") (codes "views/configs.html") csc_configs
    ∷ when (codes "/summaries") (codes "views/summary.html") csc_summary
    ∷ []

-- The texts that the filters choose from.
pub record Texts : Type 0 where
  pub yes : Text
  pub no : Text
  pub enabled : Text
  pub disabled : Text
  pub has_stream : Text
  pub no_stream : Text
  pub publish : Text
  pub play : Text
  pub unknown : Text
  pub allow : Text
  pub denied : Text
  pub any : Text
  pub everyone : Text

unfoldable pub texts_en : Texts
texts_en = record {
  yes = codes "Yes";
  no = codes "No";
  enabled = codes "Enabled";
  disabled = codes "Disabled";
  has_stream = codes "Y";
  no_stream = codes "N";
  publish = codes "Publish";
  play = codes "Play";
  unknown = codes "Unknown";
  allow = codes "Allow";
  denied = codes "Denied";
  any = codes "Any";
  everyone = codes "All";
}

unfoldable pub texts_cn : Texts
texts_cn = record {
  yes = codes "是";
  no = codes "否";
  enabled = codes "开启";
  disabled = codes "关闭";
  has_stream = codes "有流";
  no_stream = codes "无流";
  publish = codes "推流";
  play = codes "播放";
  unknown = codes "未设置";
  allow = codes "允许";
  denied = codes "禁止";
  any = codes "任何操作";
  everyone = codes "所有人";
}

-- A rule of the server's security.
pub record Security : Type 0 where
  pub action : Text
  pub method : Text
  pub entry : Text

-- `sc_filter_yn`, which is the same in both languages
unfoldable pub sc_filter_yn : Bool → Text
sc_filter_yn v = if v then codes "Y" else codes "N"

module _ (t : Texts) where
  unfoldable pub sc_filter_yesno : Bool → Text
  sc_filter_yesno v = if v then t.yes else t.no

  unfoldable pub sc_filter_enabled : Bool → Text
  sc_filter_enabled v = if v then t.enabled else t.disabled

  unfoldable pub sc_filter_has_stream : Bool → Text
  sc_filter_has_stream v = if v then t.has_stream else t.no_stream

  unfoldable pub sc_filter_ctype : Bool → Text
  sc_filter_ctype v = if v then t.publish else t.play

  -- `none` is undefined.
  unfoldable pub sc_filter_obj : Option Text → Text
  sc_filter_obj none = t.unknown
  sc_filter_obj (some v) = v

  abbrev pub action_text : Text → Text
  action_text action = if text_eq action (codes "allow") then t.allow else t.denied

  abbrev pub method_text : Text → Text
  method_text method =
      if text_eq method (codes "all")
      then t.any
      else if text_eq method (codes "publish")
      then t.publish
      else t.play

  abbrev pub entry_text : Text → Text
  entry_text entry = if text_eq entry (codes "all") then t.everyone else entry

  unfoldable pub sc_filter_security : Security → Text
  unfolding text_eq
  sc_filter_security v =
      action_text v.action
      ++ (codes " " ++ (entry_text v.entry ++ (codes " " ++ method_text v.method)))
