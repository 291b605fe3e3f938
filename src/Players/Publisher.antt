-- ===== src/Players/Publisher.antt =====
-- srs.publisher.js: the SrsPublisher objects, their registry `SrsPublisher.__publishers`, and the
-- functions that Flash calls back. The objects live in a store under their ids. A method that throws
-- keeps what it had assigned before.
pub mod Registry
mod Tests
use go_live_streaming.Base.{
  ℕ, suc, Bool, true, false, Option, none, some, List, [], ◌∷◌, ◌++◌, ◌==◌, if◌then◌else◌,
}
use go_live_streaming.Base.Text.{Text, codes}

-- What is called on the Flash object. `C` is the type of a codec's settings.
pub data Command (C : Type 0) : Type 0 where
  flash_publish : Option Text → ℕ → ℕ → C → C → Command C
  flash_stop : Command C

-- `loaded` is whether `callbackObj` is set with its `ref`.
pub record Publisher (C : Type 0) : Type 0 where
  pub id : ℕ
  pub width : ℕ
  pub height : ℕ
  pub loaded : Bool
  pub url : Option Text
  pub vcodec : C
  pub acodec : C
  pub cameras : List Text
  pub microphones : List Text
  pub code : ℕ
  pub sent : List (Command C)

-- What a call throws: of the last two, the code and the text of `errors`.
pub data Fault : Type 0 where
  type_error publisher_not_found : Fault
  publisher_error publisher_warn : ℕ → Option Text → Fault

-- The globals of the page: `SrsPublisher.__id`, `SrsPublisher.__publishers`, and the objects.
pub record Page (C : Type 0) : Type 0 where
  pub next_id : ℕ
  pub publishers : List ℕ
  pub object : ℕ → Publisher C

-- The table `errors`.
unfoldable pub errors : ℕ → Option Text
errors code =
    if code == 100
    then some (codes "无法获取指定的摄像头。")
    else if code == 101
    then some (codes "无法获取指定的麦克风。")
    else if code == 102
    then some (codes "摄像头为禁用状态，推流时请允许flash访问摄像头。")
    else if code == 103
    then some (codes "服务器关闭了连接。")
    else if code == 104
    then some (codes "服务器连接失败。")
    else if code == 199
    then some (codes "未知错误。")
    else none

abbrev pub Outcome : Type 0 → Type 0
Outcome C = Page C × Option Fault

-- The loop of `stop`: the first entry with the id is spliced out.
unfoldable pub remove_publisher : List ℕ → ℕ → List ℕ
remove_publisher [] id = []
remove_publisher (i ∷ ids) id = if i == id then ids else i ∷ remove_publisher ids id

abbrev pub given_url : Option Text → Option Text → Option Text
given_url none url = url
given_url (some url) old = some url

-- `__srs_find_publisher(id)`; an error is thrown if there is none.
unfoldable pub find_publisher : List ℕ → ℕ → Option ℕ
find_publisher [] id = none
find_publisher (i ∷ ids) id = if i == id then some i else find_publisher ids id

module _ {C : Type 0} where
  -- `new SrsPublisher(container, width, height)`; `{}` is the empty settings.
  abbrev pub create : C → ℕ → ℕ → ℕ → Publisher C
  create empty id width height = record {
    id = id;
    width = width;
    height = height;
    loaded = false;
    url = none;
    vcodec = empty;
    acodec = empty;
    cameras = [];
    microphones = [];
    code = 0;
    sent = [];
  }

  abbrev pub empty_page : C → Page C
  empty_page empty = record { next_id = 100; publishers = []; object = λ i. create empty i 0 0 }

  abbrev pub set_object : ℕ → Publisher C → Page C → Page C
  set_object i p g = record g { object = λ j. if i == j then p else g.object j }

  pub construct : C → ℕ → ℕ → Page C → Page C
  construct empty width height g = record g {
    publishers = g.publishers ++ g.next_id ∷ [];
    next_id = suc g.next_id;
    object = λ j. if g.next_id == j then create empty g.next_id width height else g.object j;
  }

  -- The callback of embedSWF, which `start` installs.
  pub start : ℕ → Bool → Page C → Page C
  start i success g = set_object i (record (g.object i) { loaded = success }) g

  -- A call on `callbackObj.ref` of an object.
  unfoldable pub send : Command C → ℕ → Page C → Outcome C
  send command i g =
      if (g.object i).loaded
      then (set_object i (record (g.object i) { sent = command ∷ (g.object i).sent }) g, none)
      else (g, some type_error)

  pub stop : ℕ → Page C → Outcome C
  unfolding remove_publisher send
  stop i g = send flash_stop i (record g { publishers = remove_publisher g.publishers i })

  -- What follows a call, unless it threw.
  abbrev pub then_do : Outcome C → (Page C → Outcome C) → Outcome C
  then_do (g, none) next = next g
  then_do (g, some fault) next = (g, some fault)

  abbrev pub given : Option C → C → C
  given none c = c
  given (some d) c = d

  -- The assignments of `publish`.
  abbrev pub assign : Option Text → Option C → Option C → Publisher C → Publisher C
  assign url vcodec acodec p = record p {
    url = given_url url p.url;
    vcodec = given vcodec p.vcodec;
    acodec = given acodec p.acodec;
  }

  abbrev pub publish_command : Publisher C → Command C
  publish_command p = flash_publish p.url p.width p.height p.vcodec p.acodec

  -- What `publish` does after the stop.
  pub start_publish : ℕ → Option Text → Option C → Option C → Page C → Outcome C
  unfolding send
  start_publish i url vcodec acodec g =
      let p = assign url vcodec acodec (g.object i) in
      send (publish_command p) i (set_object i p (record g { publishers = g.publishers ++ i ∷ [] }))

  pub publish : ℕ → Option Text → Option C → Option C → Page C → Outcome C
  unfolding stop start_publish
  publish i url vcodec acodec g = then_do (stop i g) (start_publish i url vcodec acodec)

  abbrev pub with_publisher : Option ℕ → (ℕ → Outcome C) → Page C → Outcome C
  with_publisher none handler g = (g, some publisher_not_found)
  with_publisher (some i) handler g = handler i

  pub on_publisher_ready : ℕ → List Text → List Text → Page C → Outcome C
  unfolding find_publisher
  on_publisher_ready id cameras microphones g =
      with_publisher (find_publisher g.publishers id)
        (λ i. (
          set_object i (record (g.object i) { cameras = cameras; microphones = microphones }) g,
          none,
        ))
        g

  -- The callbacks of the object throw, if the page does not replace them.
  pub on_publisher_error : ℕ → ℕ → Page C → Outcome C
  unfolding find_publisher errors
  on_publisher_error id code g =
      with_publisher (find_publisher g.publishers id)
        (λ i. (
          set_object i (record (g.object i) { code = code }) g,
          some (publisher_error code (errors code)),
        ))
        g

  pub on_publisher_warn : ℕ → ℕ → Page C → Outcome C
  unfolding find_publisher errors
  on_publisher_warn id code g =
      with_publisher (find_publisher g.publishers id)
        (λ i. (
          set_object i (record (g.object i) { code = code }) g,
          some (publisher_warn code (errors code)),
        ))
        g
