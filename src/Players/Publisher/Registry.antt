-- ===== src/Players/Publisher/Registry.antt =====
-- The registry of the publishers holds each at most once.
use go_live_streaming.Base.{
  ℕ, suc, ◌+◌, ◌-◌, ◌≤◌, ◌<◌, ◌≡◌, ◌≢◌, refl, ◌⊎◌, inl, inr, Bool, true, Option, none, some, List,
  [], ◌∷◌, ◌++◌, arith, ◌==◌, if◌then◌else◌, Bool-cases,
}
use go_live_streaming.Base.Text.{Text}
use go_live_streaming.Players.Publisher.{
  Page, Command, flash_stop, empty_page, construct, start, stop, publish, start_publish, send,
  remove_publisher, find_publisher, on_publisher_ready, on_publisher_error, on_publisher_warn,
  publisher_not_found, publish_command,
}

-- How often an id stands in the registry.
abbrev pub count : ℕ → List ℕ → ℕ
count id [] = 0
count id (i ∷ ids) = if i == id then suc (count id ids) else count id ids

count-append :
    (id : ℕ) (xs : List ℕ) (i : ℕ)
    → count id (xs ++ i ∷ []) ≡ count id xs + (if i == id then 1 else 0)
count-append id [] i = ground arith
count-append id (x ∷ xs) i = ground (arith, count-append id xs i)

count-remove :
    (j id : ℕ) (ids : List ℕ)
    → count j (remove_publisher ids id) ≡ (if j == id then count j ids - 1 else count j ids)
unfolding remove_publisher
count-remove j id [] = ground arith
count-remove j id (i ∷ ids) = ground (arith, count-remove j id ids)

pub find_publisher_cases :
    (ids : List ℕ) (id : ℕ)
    → ((find_publisher ids id ≡ none) × (count id ids ≡ 0))
      ⊎ ((find_publisher ids id ≡ some id) × (0 < count id ids))
unfolding find_publisher
find_publisher_cases [] id = inl (refl, refl)
find_publisher_cases (i ∷ ids) id = elim (find_publisher_cases ids id) [
  | inl h ↦ elim (Bool-cases (i == id)) [
    | inl e ↦ inr (ground arith, ground arith)
    | inr e ↦ inl (ground (arith, h.0), ground (arith, h.1))
  ]
  | inr h ↦ inr (ground (arith, h.0), ground (arith, h.1))
]

module _ {C : Type 0} where
  -- What the page, the user and Flash do; a method is called on an object that has been made.
  pub data Step (g : Page C) : Page C → Type 0 where
    constructs : (empty : C) (width height : ℕ) → Step g (construct empty width height g)
    starts : (i : ℕ) (success : Bool) → Step g (start i success g)
    stops : (i : ℕ) → i < g.next_id → Step g (stop i g).0
    publishes :
        (i : ℕ) (url : Option Text) (vcodec acodec : Option C)
        → i < g.next_id
        → Step g (publish i url vcodec acodec g).0
    readies :
        (id : ℕ) (cameras microphones : List Text)
        → Step g (on_publisher_ready id cameras microphones g).0
    fails : (id code : ℕ) → Step g (on_publisher_error id code g).0
    warns : (id code : ℕ) → Step g (on_publisher_warn id code g).0

  pub data Reach (g : Page C) : Page C → Type 0 where
    here : Reach g g
    next : {h k : Page C} → Reach g h → Step h k → Reach g k

  -- Each publisher stands in the registry once at most, and no id that is still free does.
  pub record Inv (g : Page C) : Type 0 where
    pub once : (id : ℕ) → count id g.publishers ≤ 1
    pub free : (id : ℕ) → g.next_id ≤ id → count id g.publishers ≡ 0

  construct-Inv :
      (empty : C) (width height : ℕ) (g : Page C) → Inv g → Inv (construct empty width height g)
  unfolding construct
  construct-Inv empty width height g v = record {
    once = λ id. ground (arith, v.once id, v.free id, count-append id g.publishers g.next_id);
    free = λ id h. ground (arith, v.free id, count-append id g.publishers g.next_id);
  }

  send-publishers :
      (command : Command C) (i : ℕ) (g : Page C)
      → ((send command i g).0.publishers ≡ g.publishers)
        × ((send command i g).0.next_id ≡ g.next_id)
  unfolding send
  send-publishers command i g = (ground arith, ground arith)

  -- What `stop` and `publish` leave of the registry.
  stop-publishers :
      (i : ℕ) (g : Page C)
      → ((stop i g).0.publishers ≡ remove_publisher g.publishers i)
        × ((stop i g).0.next_id ≡ g.next_id)
  unfolding stop
  stop-publishers i g =
      send-publishers flash_stop i (record g { publishers = remove_publisher g.publishers i })

  publish-publishers :
      (i : ℕ) (url : Option Text) (vcodec acodec : Option C) (g : Page C)
      → let g' = (publish i url vcodec acodec g).0 in
        (g'.next_id ≡ g.next_id)
        × ((g'.publishers ≡ remove_publisher g.publishers i)
            ⊎ (g'.publishers ≡ remove_publisher g.publishers i ++ i ∷ []))
  unfolding publish stop start_publish send
  publish-publishers i url vcodec acodec g = (ground arith, ground arith)

  stop-Inv : (i : ℕ) (g : Page C) → Inv g → Inv (stop i g).0
  stop-Inv i g v = record {
    once = λ id. ground (arith, v.once id, stop-publishers i g, count-remove id i g.publishers);
    free = λ id h. ground (arith, v.free id, stop-publishers i g, count-remove id i g.publishers);
  }

  publish-Inv :
      (i : ℕ) (url : Option Text) (vcodec acodec : Option C) (g : Page C)
      → i < g.next_id
      → Inv g
      → Inv (publish i url vcodec acodec g).0
  publish-Inv i url vcodec acodec g h v = record {
    once = λ id. ground (
      arith,
      v.once id,
      publish-publishers i url vcodec acodec g,
      count-remove id i g.publishers,
      count-append id (remove_publisher g.publishers i) i,
    );
    free = λ id k. ground (
      arith,
      v.free id,
      publish-publishers i url vcodec acodec g,
      count-remove id i g.publishers,
      count-append id (remove_publisher g.publishers i) i,
    );
  }

  Step-Inv : {g h : Page C} → Step g h → Inv g → Inv h
  unfolding start on_publisher_ready on_publisher_error on_publisher_warn
  Step-Inv {g} (constructs empty width height) v = construct-Inv empty width height g v
  Step-Inv (starts i success) v = record { once = v.once; free = v.free }
  Step-Inv {g} (stops i h) v = stop-Inv i g v
  Step-Inv {g} (publishes i url vcodec acodec h) v = publish-Inv i url vcodec acodec g h v
  Step-Inv {g} (readies id cameras microphones) v = record {
    once = λ j. ground (arith, v.once j);
    free = λ j k. ground (arith, v.free j);
  }
  Step-Inv {g} (fails id code) v = record {
    once = λ j. ground (arith, v.once j);
    free = λ j k. ground (arith, v.free j);
  }
  Step-Inv {g} (warns id code) v = record {
    once = λ j. ground (arith, v.once j);
    free = λ j k. ground (arith, v.free j);
  }

  -- In every history of a page no publisher stands in the registry twice, and none under an id that
  -- is still free.
  pub Reach-Inv : (empty : C) {g : Page C} → Reach (empty_page empty) g → Inv g
  Reach-Inv empty here = record { once = λ id. omega arith; free = λ id h. refl }
  Reach-Inv empty (next r st) = Step-Inv st (Reach-Inv empty r)

  on_publisher_error-absent :
      (id code : ℕ) (g : Page C)
      → count id g.publishers ≡ 0
      → on_publisher_error id code g ≡ (g, some publisher_not_found)
  unfolding on_publisher_error
  on_publisher_error-absent id code g absent = elim (find_publisher_cases g.publishers id) [
    | inl h ↦ rw (h.0, on_publisher_error)
    | inr h ↦ absurd (omega arith)
  ]

  -- In every history, `stop` takes the publisher out, with or without a Flash object: a report for it
  -- throws afterwards and changes nothing. The other publishers stay.
  pub stop-unknown :
      (empty : C) {g : Page C} (r : Reach (empty_page empty) g) (i code : ℕ)
      → let g' = (stop i g).0 in
        (count i g'.publishers ≡ 0)
        × (on_publisher_error i code g' ≡ (g', some publisher_not_found))
        × ((j : ℕ) → j ≢ i → count j g'.publishers ≡ count j g.publishers)
  stop-unknown empty {g} r i code =
      let out : count i (stop i g).0.publishers ≡ 0 =
        ground
          (arith, (Reach-Inv empty r).once i, stop-publishers i g, count-remove i i g.publishers) in
      (
        out,
        on_publisher_error-absent i code (stop i g).0 out,
        λ j h. ground (arith, stop-publishers i g, count-remove j i g.publishers),
      )

  -- On a loaded object `publish` throws nothing, hands Flash the url, the sizes and the codecs that
  -- hold then after a stop, and leaves the publisher in the registry exactly once.
  pub publish_lem :
      (empty : C) {g : Page C} (r : Reach (empty_page empty) g) (i : ℕ) (url : Option Text)
      (vcodec acodec : Option C)
      → (g.object i).loaded ≡ true
      → let g' = (publish i url vcodec acodec g).0 in
        ((publish i url vcodec acodec g).1 ≡ none)
        × (count i g'.publishers ≡ 1)
        × ((g'.object i).sent ≡ publish_command (g'.object i) ∷ flash_stop ∷ (g.object i).sent)
  unfolding publish stop start_publish send
  publish_lem empty {g} r i url vcodec acodec on = (
    ground arith,
    ground (
      arith,
      (Reach-Inv empty r).once i,
      count-remove i i g.publishers,
      count-append i (remove_publisher g.publishers i) i,
    ),
    ground arith,
  )
