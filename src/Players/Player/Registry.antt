-- ===== src/Players/Player/Registry.antt =====
-- The registry of the players, and the handlers that look a player up in it.
use go_live_streaming.Base.{
  ℕ, suc, ◌+◌, ◌≤◌, ◌<◌, ◌≡◌, refl, ap, ◌∙◌, ◌⊎◌, inl, inr, true, Option, none, some, List, [], ◌∷◌,
  ◌++◌, arith, ◌==◌, if◌then◌else◌, Bool-cases, Option-cases,
}
use go_live_streaming.Base.Text.{Text}
use go_live_streaming.Players.Player.{
  Page, player_not_found, construct, play, find_player, on_player_status, on_player_timer,
  remove_player, window_id, flash_play, flash_stop,
}

-- How often an id stands in the registry.
abbrev pub count : ℕ → List ℕ → ℕ
count id [] = 0
count id (i ∷ ids) = if i == id then suc (count id ids) else count id ids

pub count-append : (id : ℕ) (xs ys : List ℕ) → count id (xs ++ ys) ≡ count id xs + count id ys
count-append id [] ys = omega arith
count-append id (x ∷ xs) ys = ground (arith, count-append id xs ys)

pub find_player_cases :
    (ids : List ℕ) (id : ℕ)
    → ((find_player ids id ≡ none) × (count id ids ≡ 0))
      ⊎ ((find_player ids id ≡ some id) × (0 < count id ids))
unfolding find_player
find_player_cases [] id = inl (refl, refl)
find_player_cases (i ∷ ids) id = elim (find_player_cases ids id) [
  | inl h ↦ elim (Bool-cases (i == id)) [
    | inl e ↦ inr (ground arith, ground arith)
    | inr e ↦ inl (ground (arith, h.0), ground (arith, h.1))
  ]
  | inr h ↦ inr (ground (arith, h.0), ground (arith, h.1))
]

remove_player-window : (ids : List ℕ) → remove_player ids window_id ≡ ids
unfolding remove_player
remove_player-window [] = refl
remove_player-window (i ∷ ids) = ap (λ zs. i ∷ zs) (remove_player-window ids)

-- Whatever status Flash reports, "closed" included, every player stays in the registry.
pub on_player_status-players :
    (id : ℕ) (status : Text) (g : Page) → (on_player_status id status g).0.players ≡ g.players
unfolding on_player_status
on_player_status-players id status g = elim (Option-cases (find_player g.players id)) [
  | inl e ↦ rw (e, on_player_status)
  | inr (i, e) ↦ ground (arith, remove_player-window g.players)
]

count-append_self : (id : ℕ) (ids : List ℕ) → count id (ids ++ id ∷ []) ≡ suc (count id ids)
count-append_self id ids = ground (arith, count-append id ids (id ∷ []))

play-players :
    (i : ℕ) (url : Option Text) (volume : Option ℕ) (g : Page)
    → (g.object i).loaded ≡ true
    → (play i url volume g).0.players ≡ g.players ++ i ∷ []
unfolding play
play-players i url volume g on = ground arith

-- Playing on a loaded object throws nothing, hands the url, the sizes, the buffer times and the
-- volume that hold then to Flash after a stop, and enters the player into the registry once more.
pub play_lem :
    (i : ℕ) (url : Option Text) (volume : Option ℕ) (g : Page)
    → (g.object i).loaded ≡ true
    → let g' = (play i url volume g).0 in
      let p = g'.object i in
      ((play i url volume g).1 ≡ none)
      × (g'.players ≡ g.players ++ i ∷ [])
      × (count i g'.players ≡ suc (count i g.players))
      × (p.sent
          ≡ flash_play p.stream_url p.width p.height p.buffer_time p.max_buffer_time p.volume
            ∷ flash_stop
            ∷ (g.object i).sent)
unfolding play
play_lem i url volume g on = (
  ground arith,
  play-players i url volume g on,
  ap (count i) (play-players i url volume g on) ∙ count-append_self i g.players,
  ground arith,
)

-- A timer report for an id that is not in the registry throws and changes nothing; for one that is,
-- the numbers are set on that player alone, with the buffer length cut to the buffer time.
pub on_player_timer_cases :
    (id time buffer_length kbps fps rtime : ℕ) (g : Page)
    → let r = on_player_timer id time buffer_length kbps fps rtime g in
      ((count id g.players ≡ 0) × (r ≡ (g, some player_not_found)))
      ⊎ ((0 < count id g.players)
          × (r.1 ≡ none)
          × (r.0.players ≡ g.players)
          × ((r.0.object id).time ≡ time)
          × ((r.0.object id).rtime ≡ rtime)
          × ((r.0.object id).buffer_length ≤ (g.object id).buffer_time)
          × ((r.0.object id).buffer_length ≤ buffer_length)
          × ((j : ℕ) → (j ≡ id) ⊎ (r.0.object j ≡ g.object j)))
unfolding on_player_timer
on_player_timer_cases id time buffer_length kbps fps rtime g =
    elim (find_player_cases g.players id) [
      | inl (e, absent) ↦ inl (absent, rw (e, on_player_timer))
      | inr (e, present) ↦ inr (
        present,
        ground arith,
        ground arith,
        ground arith,
        ground arith,
        ground arith,
        ground arith,
        λ j. elim (Bool-cases (j == id)) [
          | inl same ↦ inl (ground arith)
          | inr other ↦ inr (ground arith)
        ],
      )
    ]

-- A new player has an id that no other had, and is found under it.
pub find_player-construct :
    (width height : ℕ) (g : Page)
    → count g.next_id g.players ≡ 0
    → (find_player (construct width height g).players g.next_id ≡ some g.next_id)
      × (count g.next_id (construct width height g).players ≡ 1)
unfolding construct
find_player-construct width height g new =
    let one = count-append_self g.next_id g.players in
    ground (arith, one, find_player_cases (g.players ++ g.next_id ∷ []) g.next_id)
