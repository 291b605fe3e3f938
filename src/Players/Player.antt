-- ===== src/Players/Player.antt =====
-- srs.player.js: the SrsPlayer objects, their registry `SrsPlayer.__players`, and the functions that
-- Flash calls back. Times and volumes are scaled to whole milliseconds and percents; the objects live
-- in a store under their ids. A method that throws keeps what it had assigned before.
pub mod Buffers
pub mod Registry
mod Tests
use go_live_streaming.Base.{
  ℕ, suc, ◌+◌, ◌*◌, ◌/◌, min, max, Bool, true, false, not, ◌&&◌, Option, none, some, List, [], ◌∷◌,
  ◌++◌, ◌==◌, if◌then◌else◌,
}
use go_live_streaming.Base.Text.{Text, codes, text_eq}
use go_live_streaming.Players.Fluency.{
  Fluency, fresh, on_stream_empty, on_stream_full, Percent, calc,
}

-- What is called on the Flash object, `callbackObj.ref`.
pub data Command : Type 0 where
  flash_play : Option Text → ℕ → ℕ → ℕ → ℕ → ℕ → Command
  flash_stop flash_pause flash_resume flash_dump_log : Command
  flash_set_dar : ℕ → ℕ → Command
  flash_set_fs : Text → ℕ → Command
  flash_set_bt flash_set_mbt : ℕ → Command

-- `loaded` is whether `callbackObj` is set with its `ref`.
pub record Player : Type 0 where
  pub id : ℕ
  pub width : ℕ
  pub height : ℕ
  pub stream_url : Option Text
  pub buffer_time : ℕ
  pub max_buffer_time : ℕ
  pub volume : ℕ
  pub loaded : Bool
  pub metadata : Option Text
  pub time : ℕ
  pub buffer_length : ℕ
  pub kbps : ℕ
  pub fps : ℕ
  pub rtime : ℕ
  pub measure : Fluency
  pub sent : List Command

-- `new SrsPlayer(container, width, height)`
abbrev pub create : ℕ → ℕ → ℕ → Player
create id width height = record {
  id = id;
  width = width;
  height = height;
  stream_url = none;
  buffer_time = 300;
  max_buffer_time = 900;
  volume = 100;
  loaded = false;
  metadata = none;
  time = 0;
  buffer_length = 0;
  kbps = 0;
  fps = 0;
  rtime = 0;
  measure = fresh;
  sent = [];
}

pub data Fault : Type 0 where
  type_error player_not_found : Fault

-- The object after a call, and what the call threw.
abbrev pub Outcome : Type 0 → Type 0
Outcome S = S × Option Fault

-- A call on `callbackObj.ref`.
unfoldable pub send : Command → Player → Outcome Player
send command p =
    if p.loaded then (record p { sent = command ∷ p.sent }, none) else (p, some type_error)

-- What follows a call, unless it threw.
abbrev pub then_do {ℓ} : {S : Type ℓ} → S × Option Fault → (S → S × Option Fault) → S × Option Fault
then_do (s, none) next = next s
then_do (s, some fault) next = (s, some fault)

pub stop : Player → Outcome Player
unfolding send
stop p = send flash_stop p

pub pause : Player → Outcome Player
unfolding send
pause p = send flash_pause p

pub resume : Player → Outcome Player
unfolding send
resume p = send flash_resume p

pub dump_log : Player → Outcome Player
unfolding send
dump_log p = send flash_dump_log p

pub set_dar : ℕ → ℕ → Player → Outcome Player
unfolding send
set_dar num den p = send (flash_set_dar num den) p

pub set_fs : Text → ℕ → Player → Outcome Player
unfolding send
set_fs refer percent p = send (flash_set_fs refer percent) p

pub fluency : Player → Percent
unfolding calc
fluency p = calc p.rtime p.measure

pub empty_count : Player → ℕ
empty_count p = p.measure.total_empty_count

-- `parseInt(t * 10)` of a time in milliseconds
abbrev pub tenths : ℕ → ℕ
tenths t = t / 100

abbrev pub max_buffer_of : ℕ → ℕ → ℕ
max_buffer_of buffer_time t = max buffer_time (max 600 t)

pub set_mbt : ℕ → Player → Outcome Player
unfolding send
set_mbt t p =
    let t' = max_buffer_of p.buffer_time t in
    if tenths p.max_buffer_time == tenths t'
    then (p, none)
    else send (flash_set_mbt t') (record p { max_buffer_time = t' })

pub set_bt : ℕ → Player → Outcome Player
unfolding send set_mbt
set_bt t p =
    if p.buffer_time == t
    then (p, none)
    else then_do (send (flash_set_bt t) (record p { buffer_time = t })) (set_mbt (t * 3))

abbrev pub given {ℓ} : {A : Type ℓ} → Option A → A → A
given none a = a
given (some b) a = b

abbrev pub given_url : Option Text → Option Text → Option Text
given_url none url = url
given_url (some url) old = some url

-- The assignments of `play`, and the call on the Flash object.
pub start_play : Option Text → Option ℕ → Player → Outcome Player
unfolding send
start_play url volume p =
    let p' = record p { stream_url = given_url url p.stream_url; volume = given volume p.volume } in
    send (flash_play p'.stream_url p'.width p'.height p'.buffer_time p'.max_buffer_time p'.volume)
      p'

-- `__srs_on_player_timer` on the player that was found
pub on_timer : ℕ → ℕ → ℕ → ℕ → ℕ → Player → Player
on_timer time buffer_length kbps fps rtime p = record p {
  time = max 0 time;
  buffer_length = min p.buffer_time (max 0 buffer_length);
  kbps = kbps;
  fps = fps;
  rtime = rtime;
}

-- The globals of the page: `SrsPlayer.__id`, `SrsPlayer.__players`, and the objects.
pub record Page : Type 0 where
  pub next_id : ℕ
  pub players : List ℕ
  pub object : ℕ → Player

abbrev pub empty_page : Page
empty_page = record { next_id = 100; players = []; object = λ i. create i 0 0 }

abbrev pub set_object : ℕ → Player → Page → Page
set_object i p g = record g { object = λ j. if i == j then p else g.object j }

-- `new SrsPlayer(…)` on the page
pub construct : ℕ → ℕ → Page → Page
construct width height g = record g {
  players = g.players ++ g.next_id ∷ [];
  next_id = suc g.next_id;
  object = λ j. if g.next_id == j then create g.next_id width height else g.object j;
}

-- The callback of embedSWF, which `start` installs; `success` says whether there is a Flash object.
pub start : ℕ → Option Text → Page → Page
start i url g =
    set_object i (record (g.object i) { stream_url = given_url url (g.object i).stream_url }) g

pub embedded : ℕ → Bool → Page → Page
embedded i success g = set_object i (record (g.object i) { loaded = success }) g

-- A method of one object, on the page.
unfoldable pub on_object : ℕ → Outcome Player → Page → Outcome Page
on_object i (p, fault) g = (set_object i p g, fault)

pub play : ℕ → Option Text → Option ℕ → Page → Outcome Page
unfolding on_object stop start_play
play i url volume g = then_do (on_object i (stop (g.object i)) g) λ g'.
    on_object i (start_play url volume (g'.object i)) (record g' { players = g'.players ++ i ∷ [] })

-- `__srs_find_player(id)`; an error is thrown if there is none.
unfoldable pub find_player : List ℕ → ℕ → Option ℕ
find_player [] id = none
find_player (i ∷ players) id = if i == id then some i else find_player players id

-- A handler on the player that is found.
abbrev pub with_player : Option ℕ → (ℕ → Outcome Page) → Page → Outcome Page
with_player none handler g = (g, some player_not_found)
with_player (some i) handler g = handler i

pub on_player_metadata : ℕ → Text → Page → Outcome Page
unfolding find_player
on_player_metadata id metadata g =
    with_player (find_player g.players id)
      (λ i. (set_object i (record (g.object i) { metadata = some metadata }) g, none)) g

pub on_player_timer : ℕ → ℕ → ℕ → ℕ → ℕ → ℕ → Page → Outcome Page
unfolding find_player on_timer
on_player_timer id time buffer_length kbps fps rtime g =
    with_player (find_player g.players id)
      (λ i. (set_object i (on_timer time buffer_length kbps fps rtime (g.object i)) g, none)) g

pub on_player_empty : ℕ → ℕ → Page → Outcome Page
unfolding find_player on_stream_empty
on_player_empty id time g =
    with_player (find_player g.players id)
      (λ i. (
        set_object i (record (g.object i) { measure = on_stream_empty time (g.object i).measure })
            g,
        none,
      ))
      g

pub on_player_full : ℕ → ℕ → Page → Outcome Page
unfolding find_player on_stream_full
on_player_full id time g =
    with_player (find_player g.players id)
      (λ i. (
        set_object i (record (g.object i) { measure = on_stream_full time (g.object i).measure }) g,
        none,
      ))
      g

-- The loop at the end of `__srs_on_player_status`, with the id that it compares with.
unfoldable pub remove_player : List ℕ → Option ℕ → List ℕ
remove_player [] id = []
remove_player (i ∷ players) none = i ∷ remove_player players none
remove_player (i ∷ players) (some id) =
    if i == id then players else i ∷ remove_player players (some id)

-- `this.id` in a function that Flash calls: `this` is the window, which has no id.
abbrev pub window_id : Option ℕ
window_id = none

pub on_player_status : ℕ → Text → Page → Outcome Page
unfolding find_player remove_player
on_player_status id status g =
    with_player (find_player g.players id)
      (λ i.
        if text_eq status (codes "closed")
        then (record g { players = remove_player g.players window_id }, none)
        else (g, none))
      g
