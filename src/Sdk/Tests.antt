-- ===== src/Sdk/Tests.antt =====
-- Calls of srs.sdk.js run on a page of one host, and the theorems on them at these inputs.
use go_live_streaming.Base.{
  ℕ, Bool, ◌≡◌, ◌≢◌, refl, ◌⊎◌, true, false, Option, none, some, List, [], ◌∷◌, ◌++◌, length,
  if◌then◌else◌, ◌==◌,
}
use go_live_streaming.Base.Text.{Text, codes, index_of?, starts_with, text_eq}
use go_live_streaming.Base.Split.{lacks→Lacks}
use go_live_streaming.Urls.Rtmp.{Anchor, prepare_url, schema_of}
use go_live_streaming.Sdk.Senders.{Codec, Sender}
use go_live_streaming.Sdk.WhipId.{marker, session_id_of}
use go_live_streaming.Sdk.WhipId.Laws.{session_id_of_lem}
use go_live_streaming.Sdk.Session.{
  Browser, Reply, Job, whip, Stage, hung, requesting, failed, refused, done, session, simulator_of,
  Session, created, Event, publishes, whip_plays, captures, offers, sets, closes, loads,
  network_fails, run, close, step, on_load, needs_https, throws,
}
use go_live_streaming.Sdk.Internal.{play_prepare_url, publish_prepare_url}
use go_live_streaming.Sdk.Demos as D
use go_live_streaming.Sdk.Demos.Equivalence.{keeps_port}
use go_live_streaming.Sdk.Demos.Runs.{Alike, as_players, AllKeepPort}
use go_live_streaming.Sdk.Demos.Runs.Histories.{run-Alike}
use go_live_streaming.Sdk.Session.Order.{At, run-created-At}
use go_live_streaming.Sdk.Session.Closing.{
  connection_calls, is_answered, close-run, network_failure_hangs,
}
use go_live_streaming.Sdk.Session.Success.{publish_answered, publish_cases}

abbrev one_anchor : Text → Anchor
one_anchor url = record {
  protocol = codes "http:";
  hostname = codes "a.b";
  host = codes "a.b";
  port = [];
  pathname = codes "/live/one";
  search = [];
}

abbrev read_json : Text → Option Reply
read_json [] = none
read_json (c ∷ body) = some (record { code = false; sdp = body })

abbrev page : Browser
page = record {
  anchor = one_anchor;
  window = record {
    href = codes "https://a.b/";
    protocol = codes "https:";
    hostname = codes "a.b";
    host = codes "a.b";
    port = [];
    pathname = codes "/";
    search = [];
    hash = [];
  };
  media = true;
  parse_json = read_json;
}

abbrev url : Text
url = codes "webrtc://a.b/live/one"

abbrev events : List (Event ℕ)
events =
    publishes url (codes "1")
    ∷ captures (7 ∷ 8 ∷ [])
    ∷ offers (codes "v=0")
    ∷ sets
    ∷ loads 200 (codes "{v=1")
    ∷ sets
    ∷ []

run-created-At_example : At page (run page created events).stage (run page created events).calls
run-created-At_example = run-created-At page events

abbrev object : Session ℕ
object = created

abbrev playing : Session ℕ
playing = run page object (whip_plays (codes "/whep/") ∷ [])

close-run_example :
    (connection_calls (run page (close playing) events).calls ≡ connection_calls playing.calls)
    × ((is_answered playing.stage ≡ true)
        ⊎ (is_answered (run page (close playing) events).stage ≡ false))
close-run_example = close-run page (whip_plays (codes "/whep/") ∷ []) events

-- A call whose request has been sent.
abbrev waiting : Session ℕ
waiting =
    run page created (publishes url (codes "1") ∷ captures [] ∷ offers (codes "v=0") ∷ sets ∷ [])

job_of : Stage → Job
job_of (requesting job offer) = job
job_of _ = whip url

waiting_requesting : waiting.stage ≡ requesting (job_of waiting.stage) (codes "v=0")
unfolding run job_of
waiting_requesting = refl

no_body_throws : on_load page (job_of waiting.stage) 200 [] ≡ throws
unfolding run on_load job_of
no_body_throws = refl

network_failure_hangs_example :
    ((run page (step page waiting network_fails) (closes ∷ [])).stage ≡ hung)
    × ((run page (step page waiting (loads 200 [])) (closes ∷ [])).stage ≡ hung)
network_failure_hangs_example =
    network_failure_hangs page waiting (job_of waiting.stage) (codes "v=0") 200 [] (closes ∷ [])
      waiting_requesting no_body_throws

abbrev ok : ℕ
ok = 200

abbrev answered : ℕ → Session ℕ
answered = publish_answered page url (codes "1") (codes "v=0") (codes "{v=1") (7 ∷ 8 ∷ [])

abbrev reply : Reply
reply = record { code = false; sdp = codes "v=1" }

publish_cases_example :
    ((answered ok).stream ≡ 7 ∷ 8 ∷ [])
    × ((((ok ≡ ok) ⊎ (ok ≡ 201))
          × (reply.code ≡ false)
          × ((run page (answered ok) (sets ∷ [])).stage
              ≡ done (
                  session (codes "v=1") (
                    simulator_of
                      (prepare_url one_anchor page.window (codes "/rtc/v1/publish/") url)))))
        ⊎ ((((ok ≢ ok) × (ok ≢ 201)) ⊎ (reply.code ≡ true))
            × ((answered ok).stage ≡ failed (refused ok))))
publish_cases_example =
    publish_cases page url (codes "1") (codes "v=0") (codes "{v=1") (7 ∷ 8 ∷ []) 200 reply refl refl

abbrev crlf_rest : Text
crlf_rest = codes "a=ice-pwd:x"

offer_marker :
    index_of? (codes "v=0 " ++ (marker ++ (codes "ab" ++ 13 ∷ 10 ∷ crlf_rest))) marker
    ≡ some (length (codes "v=0 "))
unfolding index_of? starts_with
offer_marker = refl

answer_marker :
    index_of? (codes "v=1 " ++ (marker ++ (codes "cd" ++ 13 ∷ 10 ∷ crlf_rest))) marker
    ≡ some (length (codes "v=1 "))
unfolding index_of? starts_with
answer_marker = refl

session_id_of_lem_example :
    session_id_of
      (codes "v=0 " ++ (marker ++ (codes "ab" ++ 13 ∷ 10 ∷ crlf_rest)))
      (codes "v=1 " ++ (marker ++ (codes "cd" ++ 13 ∷ 10 ∷ crlf_rest)))
    ≡ codes "ab" ++ (codes ":" ++ (codes "cd" ++ 13 ∷ []))
session_id_of_lem_example =
    session_id_of_lem (codes "v=0 ") (codes "ab") crlf_rest (codes "v=1 ") (codes "cd") crlf_rest
      offer_marker answer_marker (lacks→Lacks 10 (codes "ab") refl)
      (lacks→Lacks 10 (codes "cd") refl)

-- The texts that the server of the demos replies with.
abbrev json_of : Reply → Text
json_of r = (if r.code then 49 else 48) ∷ r.sdp

abbrev code_of : Text → Option Reply
code_of [] = none
code_of (c ∷ body) = some (record { code = c == 49; sdp = body })

abbrev demo_page : Browser
demo_page = record page { parse_json = code_of }

code_of-json_of : (r : Reply) → demo_page.parse_json (json_of r) ≡ some r
code_of-json_of r = go r.code r.sdp
  where
    go :
        (code : Bool) (sdp : Text)
        → code_of (json_of (record { code = code; sdp = sdp }))
          ≡ some (record { code = code; sdp = sdp })
    go true sdp = refl
    go false sdp = refl

keeps : keeps_port one_anchor url ≡ true
unfolding keeps_port schema_of text_eq index_of? starts_with
keeps = refl

secure : needs_https demo_page ≡ false
unfolding needs_https
secure = refl

abbrev demo_events : List (D.Event ℕ)
demo_events =
    D.publishes url (codes "1")
    ∷ D.captures (7 ∷ [])
    ∷ D.offers (codes "v=0")
    ∷ D.sets
    ∷ D.replies reply
    ∷ D.sets
    ∷ D.closes
    ∷ []

demo_keeps : AllKeepPort demo_page demo_events
demo_keeps = (keeps, (tt, (tt, (tt, (tt, (tt, (tt, tt)))))))

run-Alike_example :
    Alike
      (D.run demo_page object demo_events)
      (run demo_page object (as_players json_of demo_events))
run-Alike_example = run-Alike demo_page json_of demo_events secure code_of-json_of demo_keeps

abbrev opus : Codec
opus = record {
  mime_type = codes "audio/opus";
  clock_rate = 48000;
  channels = some 2;
  payload_type = 111;
}

abbrev red : Codec
red = record {
  mime_type = codes "audio/red";
  clock_rate = 48000;
  channels = some 2;
  payload_type = 63;
}

abbrev senders : List Sender
senders = record { track_kind = some (codes "audio"); codecs = some (opus ∷ red ∷ []) } ∷ []

-- A URL that names the path of the API for playing, and the anchor that has its query.
abbrev play_url : Text
play_url = codes "webrtc://a.b/live/one?play=/p/"

abbrev play_anchor : Text → Anchor
play_anchor url = record (one_anchor url) { search = codes "?play=/p/" }

-- Its publisher sends the offer to the API for playing.
publish_to_play :
    (publish_prepare_url play_anchor page.window play_url).api_url
    ≡ (play_prepare_url play_anchor page.window play_url).api_url
unfolding publish_prepare_url play_prepare_url
publish_to_play = refl
