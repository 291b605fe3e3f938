-- ===== src/Signaling.antt =====
-- SrsRtcSignalingAsync of live-streaming-web/nginx/html/demos/js/srs.sig.js: requests over a
-- WebSocket, which are promises kept in `_internals.msgs` under the tid that was sent. A tid is drawn
-- at random in the source, and is an argument of `send` here. `M` is the type of the messages, as
-- JSON carries them. The promises live in a store; a promise that is settled stays as it is, which is
-- the rule of the language.
pub mod Table
pub mod Parse
pub mod Promises
pub mod Placed
pub mod Replies
pub mod Collision
mod Tests
use go_live_streaming.Base.{
  ℕ, suc, Bool, true, false, Option, none, some, List, [], ◌∷◌, ◌++◌, ◌==◌, if◌then◌else◌,
}
use go_live_streaming.Base.Text.{Text, codes}
use Table.{Msgs, lookup, assign, delete}

pub data Promise (M : Type 0) : Type 0 where
  pending : Promise M
  resolved : M → Promise M
  rejected : Promise M

-- `self.ws`: null, or a socket that connects, is open, or has failed.
pub data Socket : Type 0 where
  no_socket connecting opened failed : Socket

pub record Signaling (M : Type 0) : Type 0 where
  pub ws : Socket
  pub url : Text
  pub msgs : Msgs
  pub promises : ℕ → Promise M
  pub next_promise : ℕ
  pub sent : List (ℕ × M)
  pub delivered : List M

-- The URL that `connect` opens.
unfoldable pub socket_url : Text → Text → Text → Text → Text
socket_url schema host room display =
    (schema ++ codes "://" ++ host ++ codes "/sig/v1/rtc")
    ++ (codes "?room=" ++ room ++ codes "&display=" ++ display)

module _ {M : Type 0} where
  -- `SrsRtcSignalingAsync()`
  abbrev pub init : Signaling M
  init = record {
    ws = no_socket;
    url = [];
    msgs = [];
    promises = λ _. pending;
    next_promise = 0;
    sent = [];
    delivered = [];
  }

  -- `promise.resolve(m)` and `promise.reject('close')`
  abbrev pub settle : Promise M → Promise M → Promise M
  settle pending outcome = outcome
  settle (resolved m) outcome = resolved m
  settle rejected outcome = rejected

  abbrev pub settle_at : ℕ → Promise M → (ℕ → Promise M) → ℕ → Promise M
  settle_at p outcome promises q = if p == q then settle (promises q) outcome else promises q

  pub connect : Text → Text → Text → Text → Signaling M → Signaling M
  unfolding socket_url
  connect schema host room display s = record s {
    ws = connecting;
    url = socket_url schema host room display;
  }

  -- `ws.onopen` and `ws.onerror`
  pub on_open : Signaling M → Signaling M
  on_open s = record s { ws = opened }

  pub on_error : Signaling M → Signaling M
  on_error s = record s { ws = failed }

  -- `self.ws.send(…)` in the body of the promise, which is rejected if that throws: there is no
  -- socket, or it is still connecting. A socket that has failed drops the data.
  unfoldable pub transmit : Socket → ℕ → M → ℕ → Signaling M → Signaling M
  transmit opened tid m p s = record s { sent = (tid, m) ∷ s.sent }
  transmit failed tid m p s = s
  transmit no_socket tid m p s = record s { promises = settle_at p rejected s.promises }
  transmit connecting tid m p s = record s { promises = settle_at p rejected s.promises }

  pub send : ℕ → M → Signaling M → Signaling M
  unfolding transmit
  send tid m s =
      let p = s.next_promise in
      transmit s.ws tid m p (record s {
        msgs = assign tid p s.msgs;
        promises = λ q. if p == q then pending else s.promises q;
        next_promise = suc p;
      })

  -- `ws.onmessage`, for the promise that is found.
  unfoldable pub answer : Option ℕ → ℕ → M → Signaling M → Signaling M
  answer none tid m s = record s { delivered = m ∷ s.delivered }
  answer (some p) tid m s = record s {
    promises = settle_at p (resolved m) s.promises;
    msgs = delete tid s.msgs;
  }

  pub on_message : ℕ → M → Signaling M → Signaling M
  unfolding answer
  on_message tid m s = answer (lookup tid s.msgs) tid m s

  -- The loop of `close`; the entries stay.
  unfoldable pub reject_all : Msgs → (ℕ → Promise M) → ℕ → Promise M
  reject_all [] promises = promises
  reject_all ((tid, p) ∷ msgs) promises = reject_all msgs (settle_at p rejected promises)

  pub close : Signaling M → Signaling M
  unfolding reject_all
  close s = record s { ws = no_socket; promises = reject_all s.msgs s.promises }

pub data Event (M : Type 0) : Type 0 where
  connects : Text → Text → Text → Text → Event M
  opens errors closes : Event M
  sends receives : ℕ → M → Event M

module _ {M : Type 0} where
  pub step : Signaling M → Event M → Signaling M
  step s (connects schema host room display) = connect schema host room display s
  step s opens = on_open s
  step s errors = on_error s
  step s closes = close s
  step s (sends tid m) = send tid m s
  step s (receives tid m) = on_message tid m s

  pub run : Signaling M → List (Event M) → Signaling M
  run s [] = s
  run s (e ∷ es) = run (step s e) es
