-- ===== src/Sdk/Demos/Equivalence.antt =====
-- The copy of the demos against the SDK of the players.
use go_live_streaming.Base.{
  ℕ, ◌≡◌, refl, sym, ap, ◌⊎◌, inl, inr, Bool, true, not, ◌&&◌, ◌||◌, [], ◌∷◌, ◌++◌, arith,
}
use go_live_streaming.Base.Text.{Text, codes, text_eq, starts_with, is_empty}
use go_live_streaming.Urls.Query.{Window, fill_query}
use go_live_streaming.Urls.Rtmp.{
  Anchor, http_url, schema_of, rtc_port, rtmp_port, guess_port, prepared, parse_with, fix_port,
  url_fields,
}
use go_live_streaming.Urls.Rtmp as R
use go_live_streaming.Sdk.Demos.{parse, prepare_url}

-- The anchor has a port, or the URL does not begin with "webrtc://", the anchor's host and a colon: no
-- port of the URL was dropped.
unfoldable pub keeps_port : (Text → Anchor) → Text → Bool
unfolding http_url schema_of text_eq starts_with
keeps_port anchor url =
    let a = anchor (http_url url) in
    not (is_empty a.port)
    || not (
        text_eq (schema_of url) (codes "webrtc")
        && starts_with url (codes "webrtc://" ++ (a.host ++ codes ":")))

Empty-cases : (s : Text) → (s ≡ []) ⊎ ((c : ℕ) × (t : Text) × (s ≡ c ∷ t))
Empty-cases [] = inl refl
Empty-cases (c ∷ t) = inr (c, t, refl)

port_same :
    (url schema : Text) (a : Anchor)
    → (not (is_empty a.port)
        || not (
            text_eq schema (codes "webrtc")
            && starts_with url (codes "webrtc://" ++ (a.host ++ codes ":"))))
      ≡ true
    → rtc_port url schema a ≡ rtmp_port schema a.port
unfolding rtc_port rtmp_port
port_same url schema a h = elim (Empty-cases a.port) [
  | inl empty ↦ ground (arith, h, empty)
  | inr (c, port, full) ↦ rw (full, rtc_port, rtmp_port) refl
]

-- Where the port was kept, the two copies read a URL alike.
parse-parse :
    (anchor : Text → Anchor) (w : Window) (url : Text)
    → keeps_port anchor url ≡ true
    → parse anchor w url ≡ R.parse anchor w url
unfolding parse R.parse keeps_port parse_with
parse-parse anchor w url h =
    let a = anchor (http_url url) in
    ap
      (λ p.
        fix_port (schema_of url) w 1985
          (fill_query a.search (record { fields = url_fields url a p; user_query = [] })))
      (sym (port_same url (schema_of url) a h))

pub prepare_url-prepare_url :
    (anchor : Text → Anchor) (w : Window) (default_path url : Text)
    → keeps_port anchor url ≡ true
    → prepare_url anchor w default_path url ≡ R.prepare_url anchor w default_path url
unfolding prepare_url R.prepare_url
prepare_url-prepare_url anchor w default_path url h =
    ap (prepared w default_path) (parse-parse anchor w url h)
