-- ===== src/Sdk/Session/Success.antt =====
-- Calls that come to their end.
use go_live_streaming.Base.{
  ℕ, ◌≡◌, ◌≢◌, true, false, some, List, [], ◌∷◌, arith, ◌⊎◌, inl, inr, Bool-cases, not, ◌&&◌, ◌==◌,
}
use go_live_streaming.Base.Text.{Text, codes}
use go_live_streaming.Urls.Rtmp.{prepare_url}
use go_live_streaming.Sdk.Session.{
  Browser, Reply, session, simulator_of, done, failed, refused, Session, publishes, captures,
  offers, sets, loads, created, run, on_load, needs_https,
}

module _ {T : Type 0} (b : Browser) (url tid offer body : Text) (ts : List T) where
  -- `publish` to the point where the server answers with a status.
  abbrev pub publish_answered : ℕ → Session T
  publish_answered status =
      run b created (publishes url tid ∷ captures ts ∷ offers offer ∷ sets ∷ loads status body ∷ [])

  -- Where there are media devices and a page lets all promises of the browser resolve: `publish` shows
  -- every track in its stream; with a status 200 or 201 and a body without an error code it returns the
  -- sdp of the body and the simulator's url of the server; with an error code, or with another status,
  -- it fails with the request.
  pub publish_cases :
      (status : ℕ) (r : Reply)
      → b.media ≡ true
      → b.parse_json body ≡ some r
      → ((publish_answered status).stream ≡ ts)
        × ((((status ≡ 200) ⊎ (status ≡ 201))
              × (r.code ≡ false)
              × ((run b (publish_answered status) (sets ∷ [])).stage
                  ≡ done (
                      session r.sdp (
                        simulator_of
                          (prepare_url b.anchor b.window (codes "/rtc/v1/publish/") url)))))
            ⊎ ((((status ≢ 200) × (status ≢ 201)) ⊎ (r.code ≡ true))
                × ((publish_answered status).stage ≡ failed (refused status))))
  unfolding run on_load needs_https
  publish_cases status r m e = elim (Bool-cases (not (status == 200) && not (status == 201))) [
    | inl bad ↦ (
      ground (arith, m, e, bad),
      inr (inl (ground arith, ground arith), ground (arith, m, e, bad)),
    )
    | inr good ↦ elim (Bool-cases r.code) [
      | inl code ↦
          (ground (arith, m, e, good, code), inr (inr code, ground (arith, m, e, good, code)))
      | inr fine ↦ (
        ground (arith, m, e, good, fine),
        inl (ground arith, fine, ground (arith, m, e, good, fine)),
      )
    ]
  ]
