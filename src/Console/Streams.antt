-- ===== src/Console/Streams.antt =====
-- The streams of srs.console.js: CSCStreams gives each stream its owner, `$sc_utility` the path of its
-- recordings and the test for the raw API, and filters print its preview link, video and audio. An
-- Option that is `none` stands for a TypeError, as where a stream has no owner.
pub mod Owners
pub mod Paths
pub mod Preview
mod Tests
use go_live_streaming.Base.{
  ℕ, ◌+◌, ◌-◌, ◌/◌, ◌%◌, Bool, true, false, ◌&&◌, ◌||◌, Option, none, some, List, [], ◌∷◌, ◌++◌,
  map, ◌==◌, if◌then◌else◌, ltb,
}
use go_live_streaming.Base.Text.{Text, codes, text_eq, replace, join}
use go_live_streaming.Base.Decimal.{dec}
use go_live_streaming.Utility.Arrays.{test, system_array_get}
use go_live_streaming.Players.SwfUrl.{between, hex, percent}
use go_live_streaming.Console.Server.{Server}

pub record Vhost : Type 0 where
  pub id : Text
  pub name : Text

-- The fields of a stream that the console reads; `cid` is that of its publisher.
pub record Stream : Type 0 where
  pub id : Text
  pub vhost : Text
  pub app : Text
  pub name : Text
  pub cid : Text
  pub owner : Option Vhost

-- `function(vhost) { return vhost.id === stream.vhost; }`
abbrev pub is_owner : Stream → Vhost → Bool
is_owner stream vhost = text_eq vhost.id stream.vhost

abbrev pub same_vhost : Vhost → Vhost → Bool
same_vhost v w = text_eq v.id w.id

-- The body of the loop of CSCStreams.
unfoldable pub with_owner : List Vhost → Stream → Stream
unfolding text_eq system_array_get
with_owner vhosts stream = record stream {
  owner = system_array_get same_vhost vhosts (test (is_owner stream));
}

-- `$scope.streams`, for the vhosts that came before.
unfoldable pub set_owners : List Vhost → List Stream → List Stream
unfolding with_owner
set_owners vhosts [] = []
set_owners vhosts (stream ∷ streams) = with_owner vhosts stream ∷ set_owners vhosts streams

-- The letters that `escape` leaves: A-Z a-z 0-9 @ * _ + - . /
unfoldable pub is_kept : ℕ → Bool
is_kept c =
    between 65 90 c
    || (between 97 122 c
        || (between 47 57 c || (between 42 43 c || (between 45 46 c || (c == 64 || c == 95)))))

-- A code unit as "%XX" or "%uXXXX".
unfoldable pub escape_unit : ℕ → Text
escape_unit u =
    if ltb u 256
    then percent u
    else 37 ∷ 117 ∷ hex (u / 4096 % 16) ∷ hex (u / 256 % 16) ∷ hex (u / 16 % 16) ∷ hex (u % 16) ∷ []

-- A letter; one behind the first plane is two code units.
unfoldable pub escape_letter : ℕ → Text
unfolding is_kept escape_unit
escape_letter c =
    if is_kept c
    then c ∷ []
    else if ltb c 65536
    then escape_unit c
    else escape_unit (55296 + (c - 65536) / 1024) ++ escape_unit (56320 + (c - 65536) % 1024)

-- `escape(s)`
unfoldable pub escape : Text → Text
unfolding escape_letter
escape [] = []
escape (c ∷ s) = escape_letter c ++ escape s

-- `escape(s.replace('/', '___'))`
unfoldable pub path_part : Text → Text
unfolding escape replace
path_part s = escape (replace s (codes "/") (codes "___"))

-- `$sc_utility.dvr_id(stream)`
abbrev pub dvr_path : Text → Stream → Text
unfolding path_part
dvr_path owner s =
    codes "/dvr/"
    ++ (owner
        ++ (codes "/"
            ++ (s.id ++ (codes "/" ++ (path_part s.app ++ (codes "/" ++ path_part s.name))))))

abbrev pub dvr_of : Option Vhost → Stream → Option Text
unfolding dvr_path
dvr_of none s = none
dvr_of (some vhost) s = some (dvr_path vhost.name s)

unfoldable pub dvr_id : Stream → Option Text
unfolding dvr_of
dvr_id s = dvr_of s.owner s

-- The part of a configuration that `raw_api_enabled` reads: what is missing is `none`.
pub record RawApi : Type 0 where
  pub enabled : Bool

pub record HttpApi : Type 0 where
  pub enabled : Bool
  pub raw_api : Option RawApi

abbrev pub raw_enabled : Option RawApi → Bool
raw_enabled none = false
raw_enabled (some r) = r.enabled

-- `$sc_utility.raw_api_enabled(data)`, as a condition
unfoldable pub raw_api_enabled : Option HttpApi → Bool
raw_api_enabled none = false
raw_api_enabled (some api) = api.enabled && raw_enabled api.raw_api

-- `$sc_server.http[$sc_server.http.length - 1]`
abbrev pub last_port : List Text → Text
last_port [] = codes "undefined"
last_port (p ∷ []) = p
last_port (p ∷ q ∷ ps) = last_port (q ∷ ps)

-- The page of the link, and its query.
unfoldable pub preview_page : Server → Text
unfolding join
preview_page s =
    s.schema
    ++ (codes "://"
        ++ (s.host ++ (codes ":" ++ (join s.http (codes ",") ++ codes "/players/srs_player.html"))))

unfoldable pub preview_query : Server → Text → Stream → Text
preview_query s owner v =
    codes "vhost="
    ++ (owner
        ++ (codes "&app="
            ++ (v.app
                ++ (codes "&stream="
                    ++ (v.name
                        ++ (codes ".flv&server="
                            ++ (s.host
                                ++ (codes "&port="
                                    ++ (last_port s.http
                                        ++ (codes "&autostart=true&schema=" ++ s.schema))))))))))

-- `sc_filter_preview_url`: `v.owner.name` is read before `v` is tested.
abbrev pub preview_of : Server → Option Vhost → Stream → Option Text
unfolding preview_page preview_query
preview_of s none v = none
preview_of s (some vhost) v = some (preview_page s ++ (codes "?" ++ preview_query s vhost.name v))

unfoldable pub sc_filter_preview_url : Server → Option Stream → Option Text
unfolding preview_of
sc_filter_preview_url s none = none
sc_filter_preview_url s (some v) = preview_of s v.owner v

-- The size is missing, or 0, on SRS2.
pub record Video : Type 0 where
  pub codec : Text
  pub profile : Text
  pub level : Text
  pub width : Option ℕ
  pub height : Option ℕ

abbrev pub or_zero : Option ℕ → ℕ
or_zero none = 0
or_zero (some n) = n

-- `sc_filter_video`, which writes the default size into the object: the object afterwards, and the
-- text. Its fields are written before `v` is tested.
unfoldable pub sc_filter_video : Option Video → Option (Video × Text)
unfolding dec
sc_filter_video none = none
sc_filter_video (some v) = some (
  record v { width = some (or_zero v.width); height = some (or_zero v.height) },
  v.codec
      ++ (codes "/"
          ++ (v.profile
              ++ (codes "/"
                  ++ (v.level
                      ++ (codes "/"
                          ++ (dec (or_zero v.width) ++ (codes "x" ++ dec (or_zero v.height)))))))),
)

pub record Audio : Type 0 where
  pub codec : Text
  pub sample_rate : ℕ
  pub channel : ℕ
  pub profile : Text

-- `sc_filter_audio`
unfoldable pub sc_filter_audio : Option Audio → Text
unfolding dec
sc_filter_audio none = codes "无音频"
sc_filter_audio (some v) =
    v.codec
    ++ (codes "/"
        ++ (dec v.sample_rate
            ++ (codes "/"
                ++ ((if v.channel == 2 then codes "Stereo" else codes "Mono")
                    ++ (codes "/" ++ v.profile)))))
