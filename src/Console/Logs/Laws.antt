-- ===== src/Console/Logs/Laws.antt =====
-- The messages are few, the newest is shown, and they go away.
use go_live_streaming.Base.{
  ℕ, suc, drop, ltb, true, false, Bool-cases, inl, inr, ap, ◌∙◌, Option, if◌then◌else◌, ◌+◌, ◌-◌,
  ◌≤◌, ◌<◌, ◌≡◌, ◌≢◌, refl, ◌&&◌, none, some, List, [], ◌∷◌, ◌++◌, length, length-append, arith,
  ◌==◌,
}
use go_live_streaming.Base.Text.{Text, codes, is_empty}
use go_live_streaming.Base.Decimal.{dec}
use go_live_streaming.Console.Logs.{
  Level, trace, warn, absent, plain, object, Message, text, raw, Log, remove_expired, make_room,
  on_log, known_code, message_of, undefined, code_is, on_http_error,
}

make_room-le : (logs : List Log) → length (make_room logs) ≤ 2
unfolding make_room
make_room-le [] = omega arith
make_room-le (log ∷ logs) = ground (arith, make_room-le logs)

remove_expired-le : (now : ℕ) (logs : List Log) → length (remove_expired now logs) ≤ length logs
unfolding remove_expired
remove_expired-le now [] = omega arith
remove_expired-le now (log ∷ logs) = ground (arith, remove_expired-le now logs)

-- What happens to the list: a message comes, or the timer ticks.
pub data Event : Type 0 where
  logs : Level → Message → ℕ → Event
  ticks : ℕ → Event

abbrev pub step : List Log → Event → List Log
step shown (logs level msg now) = on_log level msg now shown
step shown (ticks now) = remove_expired now shown

abbrev pub run : List Log → List Event → List Log
run shown [] = shown
run shown (e ∷ es) = run (step shown e) es

step-le : (shown : List Log) (e : Event) → length shown ≤ 3 → length (step shown e) ≤ 3
unfolding on_log
step-le shown (logs level msg now) h = omega (
  arith,
  make_room-le shown,
  length-append (make_room shown) (record { level = level; msg = msg; create = now } ∷ []),
)
step-le shown (ticks now) h = omega (arith, remove_expired-le now shown)

run-le : (shown : List Log) (es : List Event) → length shown ≤ 3 → length (run shown es) ≤ 3
run-le shown [] h = h
run-le shown (e ∷ es) h = run-le (step shown e) es (step-le shown e h)

-- Every message that is shown is older than ten seconds.
abbrev pub AllExpired : ℕ → List Log → Type 0
AllExpired now [] = Unit
AllExpired now (log ∷ shown) = (log.create + 10000 < now) × AllExpired now shown

remove_expired-AllExpired :
    (now later : ℕ) (shown : List Log)
    → now ≤ later
    → AllExpired now shown
    → AllExpired now (remove_expired later shown)
      × (length (remove_expired later shown) ≡ length shown - 1)
unfolding remove_expired
remove_expired-AllExpired now later [] h a = (tt, omega arith)
remove_expired-AllExpired now later (log ∷ shown) h a = (ground arith, ground arith)

run-append :
    (shown : List Log) (es : List Event) (e : Event)
    → run shown (es ++ e ∷ []) ≡ step (run shown es) e
run-append shown [] e = refl
run-append shown (d ∷ es) e = run-append (step shown d) es e

empty_of_length : (shown : List Log) → length shown ≡ 0 → shown ≡ []
empty_of_length [] h = refl
empty_of_length (x ∷ xs) h = absurd (omega arith)

make_room-cut :
    (log : Log) (shown : List Log)
    → ltb 2 (length (log ∷ shown)) ≡ true
    → make_room (log ∷ shown) ≡ make_room shown
unfolding make_room
make_room-cut log shown h = ground (arith, h)

make_room_lem : (shown : List Log) → make_room shown ≡ drop (length shown - 2) shown
unfolding make_room
make_room_lem [] = refl
make_room_lem (log ∷ []) = refl
make_room_lem (log ∷ next ∷ []) = refl
make_room_lem (a ∷ b ∷ c ∷ shown) =
    let one : suc (length (b ∷ c ∷ shown) - 2) ≡ length (a ∷ b ∷ c ∷ shown) - 2 = omega arith in
    make_room-cut a (b ∷ c ∷ shown) (ground arith)
    ∙ (make_room_lem (b ∷ c ∷ shown) ∙ ap (λ n. drop n (a ∷ b ∷ c ∷ shown)) one)

-- In every history there are three messages at most; a message that comes is shown behind the newest
-- two of those before it, in their order; and once all of them are older than ten seconds three ticks
-- with no message between them clear the list.
pub run_bounded :
    (es : List Event) (now a b c : ℕ) (level : Level) (msg : Message) (at : ℕ)
    → AllExpired now (run [] es)
    → now ≤ a
    → now ≤ b
    → now ≤ c
    → (length (run [] es) ≤ 3)
      × (run [] (es ++ logs level msg at ∷ [])
          ≡ drop (length (run [] es) - 2) (run [] es)
            ++ record { level = level; msg = msg; create = at } ∷ [])
      × (run (run [] es) (ticks a ∷ ticks b ∷ ticks c ∷ []) ≡ [])
unfolding on_log
run_bounded es now a b c level msg at old ha hb hc =
    let few = run-le [] es (omega arith) in
    let one = remove_expired-AllExpired now a (run [] es) ha old in
    let two = remove_expired-AllExpired now b (remove_expired a (run [] es)) hb one.0 in
    let three =
      remove_expired-AllExpired now c (remove_expired b (remove_expired a (run [] es))) hc two.0 in
    (
      few,
      run-append [] es (logs level msg at)
          ∙ ap (λ l. l ++ record { level = level; msg = msg; create = at } ∷ [])
              (make_room_lem (run [] es)),
      empty_of_length _ (omega (arith, few, one.1, two.1, three.1)),
    )

-- The codes that the console explains, and the texts for them.
abbrev pub table : List (ℕ × Text)
table = (1061, codes "RAW API被禁用") ∷ (1062, codes "服务器不允许这个操作") ∷ (1063, codes "RawApi参数不符合要求") ∷ []

abbrev pub entry : ℕ → List (ℕ × Text) → Option Text
entry code [] = none
entry code ((c, why) ∷ rest) = if code == c then some why else entry code rest

message_of-text :
    (status : ℕ) (t : Text)
    → status ≢ 200
    → message_of status (plain t) undefined
      ≡ text (
          if status == 0 && is_empty t
          then codes "无法访问服务器"
          else codes "HTTP/" ++ dec status ++ codes ", " ++ t)
unfolding message_of
message_of-text status [] h = ground (arith, h)
message_of-text status (c ∷ t) h = ground (arith, h)

message_of-object :
    (status code : ℕ)
    → status ≢ 200
    → message_of status (object code) (code_is code)
      ≡ text (codes "HTTP/" ++ dec status ++ codes ", " ++ codes "[object Object]")
unfolding message_of
message_of-object status code h =
    let no : (status == 200) ≡ false = ground (arith, h) in
    elim (Bool-cases (status == 0)) [
      | inl z ↦ rw (message_of, no, z) refl
      | inr z ↦ rw (message_of, no, z) refl
    ]

message_of-known :
    (code : ℕ)
    → message_of 200 (object code) (code_is code) ≡ elim (entry code table) [
      | some why ↦ text (codes "code=" ++ dec code ++ codes ", " ++ why)
      | none ↦ raw (object code)
    ]
unfolding message_of known_code
message_of-known code = ground arith

-- What is made of a failed request with any status: a response that is null or undefined makes the
-- handler throw. A text is a warning: with status 200 it is shown as it came, with status 0 and no
-- letter the server cannot be reached, and otherwise the status and the text are shown. An object is a
-- trace if its code is 1061 and else a warning: with status 200 the text of the table for its code, or
-- the object itself for a code that is not there, and with any other status the status and "[object
-- Object]".
pub on_http_error_cases :
    (status code : ℕ) (t : Text)
    → status ≢ 200
    → (on_http_error status absent ≡ none)
      × (on_http_error 200 absent ≡ none)
      × (on_http_error 200 (plain t) ≡ some (warn, raw (plain t)))
      × (on_http_error status (plain t)
          ≡ some (
            warn,
            text (
                if status == 0 && is_empty t
                then codes "无法访问服务器"
                else codes "HTTP/" ++ dec status ++ codes ", " ++ t),
          ))
      × (on_http_error 200 (object code)
          ≡ some (
            if code == 1061 then trace else warn,
            elim (entry code table) [
              | some why ↦ text (codes "code=" ++ dec code ++ codes ", " ++ why)
              | none ↦ raw (object code)
            ],
          ))
      × (on_http_error status (object code)
          ≡ some (
            if code == 1061 then trace else warn,
            text (codes "HTTP/" ++ dec status ++ codes ", " ++ codes "[object Object]"),
          ))
unfolding on_http_error message_of
on_http_error_cases status code t h = (
  refl,
  refl,
  refl,
  ap (λ m. some (warn, m)) (message_of-text status t h),
  ap (λ m. some (if code == 1061 then trace else warn, m)) (message_of-known code),
  ap (λ m. some (if code == 1061 then trace else warn, m)) (message_of-object status code h),
)
