-- ===== src/Console/Polling/Asides.antt =====
-- The requests that the polling does not wait for leave it as it is.
use go_live_streaming.Base.{
  ℕ, ◌≡◌, refl, true, false, Option, none, some, ◌==◌, if◌then◌else◌, remove_at,
}
use go_live_streaming.Console.Logs.{object}
use go_live_streaming.Console.Polling.{
  Console, Answer, responds, errors, Aside, deletes_client, deletes_stream, reads_raw, http_error,
  on_aside, on_aside_answer, aside_answered,
}

module _ {D : Type 0} where
  -- The refresher, the requests that wait for an answer, and what the pages show.
  abbrev pub Same : Console D → Console D → Type 0
  Same t s = (t.refresher ≡ s.refresher) × ((t.in_flight ≡ s.in_flight) × (t.shown ≡ s.shown))

  on_aside-Same :
      (q : Aside) (result : D) (now : ℕ) (s : Console D) → Same (on_aside q result now s) s
  unfolding on_aside
  on_aside-Same (deletes_client id) result now s = (refl, (refl, refl))
  on_aside-Same (deletes_stream cid) result now s = (refl, (refl, refl))
  on_aside-Same reads_raw result now s = (refl, (refl, refl))

  on_aside_answer-Same :
      (q : Aside) (a : Answer D) (now : ℕ) (s : Console D) → Same (on_aside_answer q a now s) s
  unfolding on_aside_answer http_error
  on_aside_answer-Same q (errors status response) now s = (refl, (refl, refl))
  on_aside_answer-Same q (responds status code result) now s =
      elim (code == 0)
        as (λ c.
          Same (if c then on_aside q result now s else http_error status (object code) now s) s) [
            | true ↦ on_aside-Same q result now s
            | false ↦ (refl, (refl, refl))
          ]

  pub aside_answered-Same :
      (o : Option Aside) (i : ℕ) (a : Answer D) (now : ℕ) (s : Console D)
      → Same (aside_answered o i a now s) s
  unfolding aside_answered
  aside_answered-Same none i a now s = (refl, (refl, refl))
  aside_answered-Same (some q) i a now s =
      on_aside_answer-Same q a now (record s { asides = remove_at i s.asides })
