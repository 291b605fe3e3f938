-- ===== src/Urls/Page/Init.antt =====
-- What srs.page.js writes to a player page when it is opened: the links of its navigator and the URL
-- in its field. The page is the attributes, values and styles that jQuery sets, under the selector and
-- the name.
pub mod Laws
use go_live_streaming.Base.{
  ℕ, ◌-◌, ◌*◌, ◌/◌, ◌≡◌, ◌≢◌, refl, sym, ap, ◌∙◌, Bool, true, false, Option, none, some, List, [],
  ◌∷◌, ◌++◌, arith, if◌then◌else◌,
}
use go_live_streaming.Base.Text.{Text, codes, text_eq, text_eq_iff}
use go_live_streaming.Base.Decimal.{dec}
use go_live_streaming.Base.Dict.{Dict, lookup, assign, lookup-assign}
use go_live_streaming.Urls.Query.{Window, Parsed}
use go_live_streaming.Urls.Page.{
  member, build_default_flv_url, build_default_rtc_url, build_default_whip_whep_url,
}

unfoldable pub srs_get_player_modal : ℕ
srs_get_player_modal = 740

unfoldable pub srs_get_player_width : ℕ
unfolding srs_get_player_modal
srs_get_player_width = srs_get_player_modal - 30

-- The links of the navigator, by selector, and their files.
unfoldable pub nav_files : Dict Text
nav_files =
    (codes "#nav_srs_player", codes "srs_player.html")
    ∷ (codes "#nav_rtc_player", codes "rtc_player.html")
    ∷ (codes "#nav_rtc_publisher", codes "rtc_publisher.html")
    ∷ (codes "#nav_whip", codes "whip.html")
    ∷ (codes "#nav_whep", codes "whep.html")
    ∷ (codes "#nav_srs_publisher", codes "srs_publisher.html")
    ∷ (codes "#nav_srs_chat", codes "srs_chat.html")
    ∷ (codes "#nav_srs_bwt", codes "srs_bwt.html")
    ∷ (codes "#nav_vlc", codes "vlc.html")
    ∷ []

-- The page: the links by selector, the fields by selector, and the sizes of the modal player.
pub record Page : Type 0 where
  pub hrefs : Dict Text
  pub values : Dict Text
  pub widths : Dict Text
  pub margins : Dict Text

unfoldable pub set_hrefs : Text → Dict Text → Dict Text → Dict Text
unfolding assign
set_hrefs search [] hrefs = hrefs
set_hrefs search ((selector, file) ∷ rest) hrefs =
    set_hrefs search rest (assign selector (file ++ search) hrefs)

module _ (w : Window) where
  unfoldable pub update_nav : Page → Page
  unfolding nav_files set_hrefs
  update_nav page = record page { hrefs = set_hrefs w.search nav_files page.hrefs }

  abbrev pub set_value : Text → Text → Page → Page
  unfolding assign
  set_value selector url page = record page { values = assign selector url page.values }

  -- `if (flv_url) $(flv_url).val(…)`
  abbrev pub set_flv : Text → Page → Page
  unfolding build_default_flv_url
  set_flv [] page = page
  set_flv (c ∷ id) page = set_value (c ∷ id) (build_default_flv_url w) page

  -- `if (modal_player)`: its width, and half of it as the margin.
  abbrev pub set_modal : Text → Page → Page
  unfolding assign srs_get_player_modal
  set_modal [] page = page
  set_modal (c ∷ id) page = record page {
    widths = assign (c ∷ id) (dec srs_get_player_modal ++ codes "px") page.widths;
    margins =
        assign (c ∷ id) (codes "-" ++ (dec (srs_get_player_modal / 2) ++ codes "px")) page.margins;
  }

  unfoldable pub srs_init_flv : Text → Text → Page → Page
  unfolding update_nav
  srs_init_flv flv_url modal_player page =
      set_modal modal_player (set_flv flv_url (update_nav page))

  unfoldable pub srs_init_rtc : Text → Parsed → Page → Page
  unfolding update_nav build_default_rtc_url
  srs_init_rtc id query page = set_value id (build_default_rtc_url w query) (update_nav page)

  unfoldable pub srs_init_whip : Text → Parsed → Page → Page
  unfolding update_nav build_default_whip_whep_url
  srs_init_whip id query page =
      set_value id (build_default_whip_whep_url w (codes "/rtc/v1/whip/") query) (update_nav page)

  unfoldable pub srs_init_whep : Text → Parsed → Page → Page
  unfolding update_nav build_default_whip_whep_url
  srs_init_whep id query page =
      set_value id (build_default_whip_whep_url w (codes "/rtc/v1/whep/") query) (update_nav page)
