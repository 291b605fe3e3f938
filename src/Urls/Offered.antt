-- ===== src/Urls/Offered.antt =====
-- The WebRTC URL that a player page offers (srs.page.js), read by the SDK (srs.sdk.js).
pub mod Queries
pub mod RoundTrip
mod Tests
use mathlib.Core.List.{append_assoc}
use go_live_streaming.Base.{
  ℕ, zero, suc, ◌+◌, ◌-◌, ◌≡◌, ◌≢◌, refl, sym, ap, ◌∙◌, true, false, none, some, List, [], ◌∷◌,
  ◌++◌, arith, length, take, drop, min, max, length-append, take-append, drop-append, ◌==◌,
}
use go_live_streaming.Base.Text.{
  Text, codes, index_of?, last_index_of?, starts_with, text_eq, replace, substring, is_empty,
}
use go_live_streaming.Base.Split.{
  Lacks, Lacks-concat, index_of?-Lacks, index_of?-char, last_index_of?-char, last_index_of?-Lacks,
}
use go_live_streaming.Base.Dict.{lookup}
use go_live_streaming.Urls.Query.{Value, str, Parsed, Window, fill_query}
use go_live_streaming.Urls.Rtmp.{
  Anchor, http_url, schema_of, split_app, url_fields, fix_port, rtc_port, parse, after_index,
  index_or_zero,
}
use go_live_streaming.Urls.Page.{
  is_last, field_or, api_port, rtc_queries, rtc_uri, strip_last, build_default_rtc_url,
}

-- What is behind "webrtc://" keeps it from being another kind of URL.
pub record NoSchema (rest : Text) : Type 0 where
  pub no_rtmp : index_of? rest (codes "rtmp://") ≡ none
  pub no_rtc : index_of? rest (codes "rtc://") ≡ none

replace-none : (s t r : Text) → index_of? s t ≡ none → replace s t r ≡ s
replace-none s t r h = unfold replace in rw (replace, h) refl

no_rtmp_there :
    (rest : Text)
    → index_of? rest (codes "rtmp://") ≡ none
    → index_of? (codes "webrtc://" ++ rest) (codes "rtmp://") ≡ none
unfolding index_of? starts_with
no_rtmp_there rest h = rw h refl

no_rtc_there :
    (rest : Text)
    → index_of? rest (codes "rtc://") ≡ none
    → index_of? (codes "http://" ++ rest) (codes "rtc://") ≡ none
unfolding index_of? starts_with
no_rtc_there rest h = rw h refl

webrtc_replaced :
    (rest : Text)
    → replace (codes "webrtc://" ++ rest) (codes "webrtc://") (codes "http://")
      ≡ codes "http://" ++ rest
unfolding replace index_of? starts_with
webrtc_replaced rest = refl

http_url-webrtc :
    (rest : Text) → NoSchema rest → http_url (codes "webrtc://" ++ rest) ≡ codes "http://" ++ rest
unfolding http_url
http_url-webrtc rest h =
    ap
      (λ u.
        replace (replace u (codes "webrtc://") (codes "http://")) (codes "rtc://")
          (codes "http://"))
      (replace-none (codes "webrtc://" ++ rest) (codes "rtmp://") (codes "http://")
        (no_rtmp_there rest h.no_rtmp))
    ∙ (ap (λ u. replace u (codes "rtc://") (codes "http://")) (webrtc_replaced rest)
        ∙ replace-none (codes "http://" ++ rest) (codes "rtc://") (codes "http://")
            (no_rtc_there rest h.no_rtc))

schema_of-webrtc : (rest : Text) → schema_of (codes "webrtc://" ++ rest) ≡ codes "webrtc"
unfolding schema_of index_of? starts_with
schema_of-webrtc rest = refl

-- An anchor that reads a URL of a host with a path of an app and a stream, and what is behind them.
pub record Reads (a : Anchor) (server app stream search : Text) : Type 0 where
  pub hostname : a.hostname ≡ server
  pub pathname : a.pathname ≡ codes "/" ++ (app ++ (codes "/" ++ stream))
  pub query : a.search ≡ search

-- The app has no query or virtual host of its own.
pub record Unqueried (app : Text) : Type 0 where
  pub no_query : Lacks 63 app
  pub no_vhost : index_of? app (codes "...vhost...") ≡ none

-- The path of the anchor, cut at its last slash.
slash_found :
    (app stream : Text)
    → Lacks 47 stream
    → last_index_of? (codes "/" ++ (app ++ (codes "/" ++ stream))) (codes "/")
      ≡ some (suc (length app))
slash_found app stream h = last_index_of?-char 47 (47 ∷ app) stream h

app_cut :
    (app stream : Text)
    → substring (codes "/" ++ (app ++ (codes "/" ++ stream))) 1 (suc (length app)) ≡ app
app_cut app stream =
    let lower : min 1 (suc (length app)) ≡ 1 = omega arith in
    let upper : max 1 (suc (length app)) - 1 ≡ length app = omega arith in
    ap
      (λ k.
        take (max 1 (suc (length app)) - k) (drop k (codes "/" ++ (app ++ (codes "/" ++ stream)))))
      lower
    ∙ (ap (λ k. take k (app ++ (codes "/" ++ stream))) upper
        ∙ take-append app (codes "/" ++ stream))

split_app-none : (app host : Text) → Unqueried app → (split_app app host).1 ≡ app
split_app-none app host i =
    unfold split_app in rw (split_app, index_of?-Lacks 63 app i.no_query) refl

module _ (url server app stream search : Text) (a : Anchor) (port : Value)
    (r : Reads a server app stream search) where
  url_fields-server : lookup (codes "server") (url_fields url a port) ≡ some (str server)
  unfolding url_fields lookup text_eq
  url_fields-server = ap (λ h. some (str h)) r.hostname

  url_fields-stream :
      Lacks 47 stream → lookup (codes "stream") (url_fields url a port) ≡ some (str stream)
  unfolding url_fields lookup text_eq
  url_fields-stream h =
      ap (λ p. some (str (drop (after_index (last_index_of? p (codes "/"))) p))) r.pathname
      ∙ (ap (λ o. some (str (drop (after_index o) (codes "/" ++ (app ++ (codes "/" ++ stream))))))
            (slash_found app stream h)
          ∙ ap (λ t. some (str t)) (cut_stream app))
    where
      cut_stream : (s : Text) → drop (suc (suc (length s))) (47 ∷ (s ++ 47 ∷ stream)) ≡ stream
      cut_stream [] = refl
      cut_stream (c ∷ s) = cut_stream s

  url_fields-app :
      Lacks 47 stream
      → Unqueried app
      → lookup (codes "app") (url_fields url a port) ≡ some (str app)
  unfolding url_fields lookup text_eq
  url_fields-app h i =
      let whole = codes "/" ++ (app ++ (codes "/" ++ stream)) in
      let part = λ (t : Text).
        some (str (split_app (replace t (codes "...vhost...") (codes "?vhost=")) a.hostname).1) in
      ap (λ p. part (substring p 1 (index_or_zero (last_index_of? p (codes "/"))))) r.pathname
      ∙ (ap (λ o. part (substring whole 1 (index_or_zero o))) (slash_found app stream h)
          ∙ (ap part (app_cut app stream)
              ∙ (ap (λ t. some (str (split_app t a.hostname).1))
                    (replace-none app (codes "...vhost...") (codes "?vhost=") i.no_vhost)
                  ∙ ap (λ t. some (str t)) (split_app-none app a.hostname i))))

strip_last-kept :
    (fuel : ℕ) (c s : Text)
    → is_last (last_index_of? s c) (length s) ≡ false
    → strip_last fuel c s ≡ s
unfolding strip_last
strip_last-kept zero c s h = refl
strip_last-kept (suc fuel) c s h = rw h refl

-- A URL whose query has no "?" and is not empty keeps it.
strip_mark :
    (s q : Text)
    → is_empty q ≡ false
    → Lacks 63 q
    → strip_last (length (s ++ 63 ∷ q)) (codes "?") (s ++ 63 ∷ q) ≡ s ++ 63 ∷ q
strip_mark s [] e h = absurd (ground (arith, e))
strip_mark s (c ∷ q) e h =
    strip_last-kept (length (s ++ 63 ∷ c ∷ q)) (codes "?") (s ++ 63 ∷ c ∷ q) (
      ap (λ o. is_last o (length (s ++ 63 ∷ c ∷ q))) (last_index_of?-char 63 s (c ∷ q) h)
      ∙ ground (arith, length-append s (63 ∷ c ∷ q)))

take_before : (c : ℕ) (s : Text) → take (length (s ++ c ∷ []) - 1) (s ++ c ∷ []) ≡ s
take_before c s =
    ap (λ n. take n (s ++ c ∷ [])) (ground (arith, length-append s (c ∷ [])))
    ∙ take-append s (c ∷ [])

strip_last-cut :
    (fuel : ℕ) (c s : Text)
    → is_last (last_index_of? s c) (length s) ≡ true
    → strip_last (suc fuel) c s ≡ strip_last fuel c (take (length s - 1) s)
unfolding strip_last
strip_last-cut fuel c s h = rw h refl

-- A URL that ends in "?" and has no other loses it.
strip_end :
    (s : Text) (c : ℕ)
    → Lacks 63 (c ∷ s)
    → strip_last (length (c ∷ s ++ 63 ∷ [])) (codes "?") (c ∷ s ++ 63 ∷ []) ≡ c ∷ s
strip_end s c h =
    strip_last-cut (length (s ++ 63 ∷ [])) (codes "?") (c ∷ s ++ 63 ∷ []) (
      ap (λ o. is_last o (length (c ∷ s ++ 63 ∷ []))) (last_index_of?-char 63 (c ∷ s) [] tt)
      ∙ ground (arith, length-append s (63 ∷ [])))
    ∙ (ap (strip_last (length (s ++ 63 ∷ [])) (codes "?")) (take_before 63 (c ∷ s))
        ∙ strip_last-kept (length (s ++ 63 ∷ [])) (codes "?") (c ∷ s) (
            ap (λ o. is_last o (length (c ∷ s))) (last_index_of?-Lacks 63 (c ∷ s) h)
            ∙ ground arith))
