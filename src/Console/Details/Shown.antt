-- ===== src/Console/Details/Shown.antt =====
-- What the page of a stream shows.
use go_live_streaming.Base.{
  ℕ, zero, suc, ◌+◌, ◌≤◌, ◌≡◌, refl, sym, ap, ◌∙◌, Option, none, some, List, [], ◌∷◌, arith, ◌==◌,
  Bool-cases, inl, inr, get_elem?, remove_at,
}
use mathlib.Core.Path.{subst}
use mathlib.Core.Option.{some-injective}
use go_live_streaming.Base.Text.{Text}
use go_live_streaming.Refresh.{World}
use go_live_streaming.Console.Polling as Polling
use go_live_streaming.Console.Polling.{Answer, responds, errors}
use go_live_streaming.Console.Logs.{Log}
use go_live_streaming.Console.Streams.{Vhost, Stream}
use go_live_streaming.Console.Details.{
  stream_page, Call, gets_stream, gets_owner, Body, has_vhost, has_stream, Details, log, ask,
  opened, enter, on_stream, on_success, http_error, on_answer, answered, Event, kickoff_stream,
  kickoff_client, answers, elsewhere, step, run,
}

-- A good answer of a server that gives what it was asked for.
abbrev pub Gives : Call → Body → Type 0
Gives (gets_stream id) body = (s : Stream) × (body ≡ has_stream s) × (s.id ≡ id)
Gives (gets_owner stream) body = (v : Vhost) × (body ≡ has_vhost v) × (v.id ≡ stream.vhost)
Gives _ body = Unit

abbrev pub IsHonest : Option Call → Answer Body → Type 0
IsHonest none a = Unit
IsHonest (some c) (responds status code body) = Gives c body
IsHonest (some c) (errors status response) = Unit

abbrev pub HonestStep : Details → Event → Type 0
HonestStep s (answers i a now) = IsHonest (get_elem? s.waits i) a
HonestStep s _ = Unit

abbrev pub HonestRun : Details → List Event → Type 0
HonestRun s [] = Unit
HonestRun s (e ∷ es) = HonestStep s e × HonestRun (step s e) es

-- A stream with the id that is shown with its own vhost.
abbrev pub IsShown : Text → Option Stream → Type 0
IsShown id none = Unit
IsShown id (some s) = (s.id ≡ id) × ((v : Vhost) × (s.owner ≡ some v) × (v.id ≡ s.vhost))

-- The requests that lead to a stream being shown.
abbrev pub weight : Call → ℕ
weight (gets_stream id) = 1
weight (gets_owner s) = 1
weight _ = 0

abbrev pub asked : List Call → ℕ
asked [] = 0
asked (c ∷ cs) = weight c + asked cs

abbrev pub owned : Option Vhost → ℕ
owned none = 0
owned (some v) = 1

-- They are about the stream of the page.
abbrev AsksFor : Text → Call → Type 0
AsksFor id (gets_stream j) = j ≡ id
AsksFor id (gets_owner s) = s.id ≡ id
AsksFor id _ = Unit

abbrev AllAskFor : Text → List Call → Type 0
AllAskFor id [] = Unit
AllAskFor id (c ∷ cs) = AsksFor id c × AllAskFor id cs

record Inv (id : Text) (s : Details) : Type 0 where
  once : asked s.waits + owned s.owner ≤ 1
  about : AllAskFor id s.waits
  shown : IsShown id s.stream

pub asked-remove_at :
    (cs : List Call) (i : ℕ) (c : Call)
    → get_elem? cs i ≡ some c
    → asked cs ≡ weight c + asked (remove_at i cs)
asked-remove_at [] i c e = absurd (ground arith)
asked-remove_at (d ∷ cs) zero c e = ap (λ x. weight x + asked cs) (ground (arith, e))
asked-remove_at (d ∷ cs) (suc i) c e = omega (arith, asked-remove_at cs i c e)

AllAskFor-get :
    (id : Text) (cs : List Call) (i : ℕ) (c : Call)
    → get_elem? cs i ≡ some c
    → AllAskFor id cs
    → AsksFor id c
AllAskFor-get id [] i c e h = absurd (ground arith)
AllAskFor-get id (d ∷ cs) zero c e h = subst (AsksFor id) (some-injective d c e) h.0
AllAskFor-get id (d ∷ cs) (suc i) c e h = AllAskFor-get id cs i c e h.1

AllAskFor-remove_at :
    (id : Text) (cs : List Call) (i : ℕ) → AllAskFor id cs → AllAskFor id (remove_at i cs)
AllAskFor-remove_at id [] i h = tt
AllAskFor-remove_at id (d ∷ cs) zero h = h.1
AllAskFor-remove_at id (d ∷ cs) (suc i) h = (h.0, AllAskFor-remove_at id cs i h.1)

module _ (id : Text) where
  -- The state between the request's removal and its callback: one is used up.
  record Answered (c : Call) (s : Details) : Type 0 where
    fits : weight c + asked s.waits + owned s.owner ≤ 1
    asks : AsksFor id c
    about : AllAskFor id s.waits
    shown : IsShown id s.stream

  on_stream-Inv :
      (stream : Stream) (owner : Option Vhost) (now : ℕ) (s : Details)
      → s.owner ≡ owner
      → asked s.waits ≡ 0
      → owned owner ≡ 0
      → stream.id ≡ id
      → AllAskFor id s.waits
      → IsShown id s.stream
      → Inv id (on_stream (some stream) owner now s)
  unfolding on_stream ask log
  on_stream-Inv stream none now s o z n h about shown = record {
    once = let free : owned s.owner ≡ 0 = ap owned o in omega (arith, free);
    about = (h, about);
    shown = shown;
  }
  on_stream-Inv stream (some v) now s o z n h about shown = absurd (omega arith)

  -- A callback that shows no stream.
  unchanged :
      (c : Call) (s s' : Details)
      → Answered c s
      → s'.waits ≡ s.waits
      → s'.owner ≡ s.owner
      → s'.stream ≡ s.stream
      → Inv id s'
  unchanged c s s' h a b d = record {
    once = omega (arith, h.fits, ap asked a, ap owned b);
    about = subst (AllAskFor id) (sym a) h.about;
    shown = subst (IsShown id) (sym d) h.shown;
  }

  show_owned :
      (st : Stream) (v : Vhost) (now : ℕ) (s : Details)
      → v.id ≡ st.vhost
      → Answered (gets_owner st) s
      → Inv id (on_success (gets_owner st) (has_vhost v) now s)
  unfolding on_success
  show_owned st v now s same h = record {
    once = omega (arith, h.fits);
    about = h.about;
    shown = (h.asks, (v, refl, same));
  }

  owner_asked :
      (j : Text) (st : Stream) (now : ℕ) (s : Details)
      → st.id ≡ j
      → Answered (gets_stream j) s
      → Inv id (on_success (gets_stream j) (has_stream st) now s)
  unfolding on_success
  owner_asked j st now s same h =
      on_stream-Inv st s.owner now s refl (omega (arith, h.fits)) (omega (arith, h.fits))
        (same ∙ h.asks) h.about h.shown

  on_success-Inv :
      (c : Call) (body : Body) (now : ℕ) (s : Details)
      → Gives c body
      → Answered c s
      → Inv id (on_success c body now s)
  unfolding on_success log
  on_success-Inv (gets_stream j) body now s (st, e, same) h =
      subst (λ b. Inv id (on_success (gets_stream j) b now s)) (sym e)
        (owner_asked j st now s same h)
  on_success-Inv (gets_owner st) body now s (v, e, same) h =
      subst (λ b. Inv id (on_success (gets_owner st) b now s)) (sym e)
        (show_owned st v now s same h)
  on_success-Inv c body now s g h = unchanged c s _ h refl refl refl

  on_answer-Inv :
      (c : Call) (a : Answer Body) (now : ℕ) (s : Details)
      → IsHonest (some c) a
      → Answered c s
      → Inv id (on_answer c a now s)
  unfolding on_answer http_error
  on_answer-Inv c (responds status code body) now s g h = elim (Bool-cases (code == 0)) [
    | inl good ↦ rw (on_answer, good) (on_success-Inv c body now s g h)
    | inr bad ↦ rw (on_answer, bad) (unchanged c s _ h refl refl refl)
  ]
  on_answer-Inv c (errors status response) now s g h = unchanged c s _ h refl refl refl

  answered-Inv :
      (o : Option Call) (i : ℕ) (a : Answer Body) (now : ℕ) (s : Details)
      → get_elem? s.waits i ≡ o
      → IsHonest o a
      → Inv id s
      → Inv id (answered o i a now s)
  unfolding answered
  answered-Inv none i a now s e g h = h
  answered-Inv (some c) i a now s e g h =
      on_answer-Inv c a now (record s { waits = remove_at i s.waits }) g
        (record {
          fits = omega (arith, asked-remove_at s.waits i c e, h.once);
          asks = AllAskFor-get id s.waits i c e h.about;
          about = AllAskFor-remove_at id s.waits i h.about;
          shown = h.shown;
        })

  run-Inv : (s : Details) (es : List Event) → HonestRun s es → Inv id s → Inv id (run s es)
  unfolding run step ask
  run-Inv s [] g h = h
  run-Inv s (kickoff_stream cid ∷ es) g h =
      run-Inv (step s (kickoff_stream cid)) es g.1
        (record { once = omega (arith, h.once); about = (tt, h.about); shown = h.shown })
  run-Inv s (kickoff_client j ∷ es) g h =
      run-Inv (step s (kickoff_client j)) es g.1
        (record { once = omega (arith, h.once); about = (tt, h.about); shown = h.shown })
  run-Inv s (answers i a now ∷ es) g h =
      run-Inv (step s (answers i a now)) es g.1
        (answered-Inv (get_elem? s.waits i) i a now s refl g.0 h)
  run-Inv s (elsewhere w logs ∷ es) g h =
      run-Inv (step s (elsewhere w logs)) es g.1
        (record { once = h.once; about = h.about; shown = h.shown })

-- The page of a stream, in every history with a server that gives what it is asked for, and whatever
-- other pages have left under way: a stream that it shows is the one of its route, with its own vhost
-- as its owner; and of the requests that lead to it one at most is waiting.
pub run-IsShown :
    (id : Text) (now : ℕ) (w : World Polling.Page) (logs : List Log) (es : List Event)
    → HonestRun (enter (stream_page id) now w logs) es
    → IsShown id (run (enter (stream_page id) now w logs) es).stream
      × (asked (run (enter (stream_page id) now w logs) es).waits ≤ 1)
unfolding enter opened ask log
run-IsShown id now w logs es g =
    let start : Inv id (enter (stream_page id) now w logs) = record {
      once = omega arith;
      about = (refl, (tt, tt));
      shown = tt;
    } in
    let h = run-Inv id (enter (stream_page id) now w logs) es g start in
    (h.shown, omega (arith, h.once))
