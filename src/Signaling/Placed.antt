-- ===== src/Signaling/Placed.antt =====
-- Where the promises are: those that wait for a reply are in the table, those that were answered have
-- left it.
use go_live_streaming.Base.{
  ℕ, suc, ◌<◌, ◌≡◌, ◌≢◌, refl, sym, ap, ◌∙◌, ◌⊎◌, inl, inr, Bool, true, false, Option, none, some,
  List, [], ◌∷◌, arith, ◌==◌, ==_iff, Bool-cases, if◌then◌else◌,
}
use go_live_streaming.Signaling.Table.{
  Msgs, lookup, assign, delete, lookup-assign, lookup-delete, Every, Every-assign, Every-delete,
  Every-lookup,
}
use go_live_streaming.Signaling.{
  Promise, pending, resolved, rejected, Signaling, init, settle, connect, on_open, on_error,
  transmit, send, answer, on_message, close, Event, connects, opens, errors, closes, sends,
  receives, step, run,
}
use go_live_streaming.Signaling.Promises.{
  Made, step-Made, waits, waits-delete, waits-assign, close-promises,
}

-- How a promise stands to the table: one that is pending is in it, one that was resolved is not.
abbrev pub IsPlaced : {M : Type 0} → Promise M → Bool → Type 0
IsPlaced pending held = held ≡ true
IsPlaced (resolved m) held = held ≡ false
IsPlaced rejected held = Unit

-- No request draws a tid that the table still has.
abbrev pub IsFresh : {M : Type 0} → Signaling M → List (Event M) → Type 0
IsFresh s [] = Unit
IsFresh s (sends tid m ∷ es) = (lookup tid s.msgs ≡ none) × IsFresh (send tid m s) es
IsFresh s (e ∷ es) = IsFresh (step s e) es

-- The same with the tid that the promise was made for.
abbrev At : {M : Type 0} → Promise M → ℕ → ℕ → Msgs → Type 0
At pending tid p msgs = lookup tid msgs ≡ some p
At (resolved m) tid p msgs = waits p msgs ≡ false
At rejected tid p msgs = Unit

lookup-waits : (tid p : ℕ) (msgs : Msgs) → lookup tid msgs ≡ some p → waits p msgs ≡ true
unfolding lookup
lookup-waits tid p [] e = cc
lookup-waits tid p ((t, q) ∷ msgs) e = ground (arith, e, lookup-waits tid p msgs)

-- The entries of one tid are deleted, so that its promise is in the table no more.
waits-deleted :
    (owner : ℕ → ℕ) (p tid : ℕ) (msgs : Msgs)
    → owner p ≡ tid
    → Every (λ t q. owner q ≡ t) msgs
    → waits p (delete tid msgs) ≡ false
unfolding delete
waits-deleted owner p tid [] e k = refl
waits-deleted owner p tid ((t, q) ∷ msgs) e (h, k) = elim (Bool-cases (t == tid)) [
  | inl hit ↦ rw (delete, hit) (waits-deleted owner p tid msgs e k)
  | inr miss ↦ elim (Bool-cases (q == p)) [
    | inl same ↦
        let same' : q ≡ p = (==_iff q p).0 same in
        absurd (ground (arith, sym h ∙ ap owner same' ∙ e))
    | inr other ↦ rw (delete, miss, other) (waits-deleted owner p tid msgs e k)
  ]
]

At-IsPlaced :
    {M : Type 0} (o : Promise M) (tid p : ℕ) (msgs : Msgs)
    → At o tid p msgs
    → IsPlaced o (waits p msgs)
At-IsPlaced pending tid p msgs h = lookup-waits tid p msgs h
At-IsPlaced (resolved m) tid p msgs h = h
At-IsPlaced rejected tid p msgs h = tt

-- A promise that is new, and the tid that it is made for.
abbrev owned_by : ℕ → ℕ → (ℕ → ℕ) → ℕ → ℕ
owned_by tid n owner p = if n == p then tid else owner p

Every-owned_by :
    (tid n : ℕ) (owner : ℕ → ℕ) (msgs : Msgs)
    → Every (λ t p. p < n) msgs
    → Every (λ t p. owner p ≡ t) msgs
    → Every (λ t p. owned_by tid n owner p ≡ t) msgs
Every-owned_by tid n owner [] h k = tt
Every-owned_by tid n owner ((t, p) ∷ msgs) (h, hs) (k, ks) =
    (ground (arith, h, k), Every-owned_by tid n owner msgs hs ks)

module _ {M : Type 0} where
  -- Every promise that was made is where the tid says that it was made for.
  record Held (s : Signaling M) (owner : ℕ → ℕ) : Type 0 where
    at : (p : ℕ) → p < s.next_promise → At (s.promises p) (owner p) p s.msgs
    owned : Every (λ t p. owner p ≡ t) s.msgs
    made : Made s

  -- What `send` does with the table and the promises.
  send-parts :
      (tid : ℕ) (m : M) (s : Signaling M)
      → ((send tid m s).msgs ≡ assign tid s.next_promise s.msgs)
        × ((send tid m s).next_promise ≡ suc s.next_promise)
        × (((send tid m s).promises s.next_promise ≡ pending)
            ⊎ ((send tid m s).promises s.next_promise ≡ rejected))
  unfolding send transmit
  send-parts tid m s = (ground arith, ground arith, ground arith)

  send-other :
      (tid : ℕ) (m : M) (s : Signaling M) (p : ℕ)
      → s.next_promise ≢ p
      → (send tid m s).promises p ≡ s.promises p
  unfolding send transmit
  send-other tid m s p h = ground arith

  -- A promise of another tid stays where it is when a tid is assigned.
  At-assign :
      (o : Promise M) (t p tid q : ℕ) (msgs : Msgs)
      → q ≢ p
      → lookup tid msgs ≡ none
      → At o t p msgs
      → At o t p (assign tid q msgs)
  At-assign pending t p tid q msgs n free h = ground (arith, lookup-assign t tid q msgs, free, h)
  At-assign (resolved m) t p tid q msgs n free h = waits-assign p tid q msgs n h
  At-assign rejected t p tid q msgs n free h = tt

  At-new :
      (o : Promise M) (tid p : ℕ) (msgs : Msgs)
      → (o ≡ pending) ⊎ (o ≡ rejected)
      → At o tid p (assign tid p msgs)
  At-new o tid p msgs (inl e) = rw e (ground (arith, lookup-assign tid tid p msgs))
  At-new o tid p msgs (inr e) = rw e tt

  -- And when another is deleted.
  At-delete :
      (o : Promise M) (t p tid q : ℕ) (msgs : Msgs)
      → q ≢ p
      → lookup tid msgs ≡ some q
      → At o t p msgs
      → At o t p (delete tid msgs)
  At-delete pending t p tid q msgs n found h = ground (arith, lookup-delete t tid msgs, found, h)
  At-delete (resolved m) t p tid q msgs n found h = waits-delete p tid msgs h
  At-delete rejected t p tid q msgs n found h = tt

  At-answered :
      (o : Promise M) (m : M) (t p : ℕ) (msgs : Msgs)
      → waits p msgs ≡ false
      → At (settle o (resolved m)) t p msgs
  At-answered pending m t p msgs gone = gone
  At-answered (resolved n) m t p msgs gone = gone
  At-answered rejected m t p msgs gone = tt

  At-closed :
      (o : Promise M) (t p : ℕ) (msgs : Msgs)
      → At o t p msgs
      → At (if waits p msgs then settle o rejected else o) t p msgs
  At-closed pending t p msgs h = rw (lookup-waits t p msgs h) tt
  At-closed (resolved m) t p msgs h = rw h h
  At-closed rejected t p msgs h = elim (Bool-cases (waits p msgs)) [
    | inl e ↦ rw e tt
    | inr e ↦ rw e tt
  ]

  -- Nothing is pending after `close`.
  closed_not_pending :
      (o : Promise M) (held : Bool)
      → IsPlaced o held
      → (if held then settle o rejected else o) ≢ pending
  closed_not_pending pending held h e = cc
  closed_not_pending (resolved m) held h e = cc
  closed_not_pending rejected true h e = cc
  closed_not_pending rejected false h e = cc

  send-Held :
      (tid : ℕ) (m : M) (s : Signaling M) (owner : ℕ → ℕ)
      → lookup tid s.msgs ≡ none
      → Held s owner
      → Held (send tid m s) (owned_by tid s.next_promise owner)
  unfolding step
  send-Held tid m s owner free k =
      let (table, next, fresh) = send-parts tid m s in
      record {
        at = λ p h. elim (Bool-cases (s.next_promise == p)) [
          | inl same ↦
              let e : s.next_promise ≡ p = (==_iff s.next_promise p).0 same in
              rw (table, same, ← e)
                (At-new ((send tid m s).promises s.next_promise) tid s.next_promise s.msgs fresh)
          | inr other ↦
              let n : s.next_promise ≢ p = λ e. ground (arith, other, e) in
              rw (table, other, send-other tid m s p n)
                (At-assign (s.promises p) (owner p) p tid s.next_promise s.msgs n free
                  (k.at p (omega (arith, h, next, n))))
        ];
        owned = rw table (
            Every-assign (λ t p. owned_by tid s.next_promise owner p ≡ t) tid s.next_promise s.msgs
              (ground arith) (Every-owned_by tid s.next_promise owner s.msgs k.made k.owned));
        made = step-Made s (sends tid m) k.made;
      }

  answer-Held :
      (tid : ℕ) (m : M) (s : Signaling M) (owner : ℕ → ℕ) (found : Option ℕ)
      → lookup tid s.msgs ≡ found
      → Held s owner
      → Held (answer found tid m s) owner
  unfolding answer
  answer-Held tid m s owner none e k = record { at = k.at; owned = k.owned; made = k.made }
  answer-Held tid m s owner (some q) e k =
      let mine : owner q ≡ tid = Every-lookup (λ t p. owner p ≡ t) tid q s.msgs e k.owned in
      record {
        at = λ p h. elim (Bool-cases (q == p)) [
          | inl same ↦
              let same' : q ≡ p = (==_iff q p).0 same in
              let gone = waits-deleted owner p tid s.msgs (ap owner (sym same') ∙ mine) k.owned in
              rw same (At-answered (s.promises p) m (owner p) p (delete tid s.msgs) gone)
          | inr other ↦
              let n : q ≢ p = λ e. ground (arith, other, e) in
              rw other (At-delete (s.promises p) (owner p) p tid q s.msgs n e (k.at p h))
        ];
        owned = Every-delete (λ t p. owner p ≡ t) tid s.msgs k.owned;
        made = Every-delete (λ t p. p < s.next_promise) tid s.msgs k.made;
      }

  -- A table that stays, with promises that stand in it as before.
  step-Held :
      (s : Signaling M) (e : Event M) (es : List (Event M)) (owner : ℕ → ℕ)
      → IsFresh s (e ∷ es)
      → Held s owner
      → ((owner' : ℕ → ℕ) × Held (step s e) owner') × IsFresh (step s e) es
  unfolding step connect on_open on_error close on_message
  step-Held s (connects schema host room display) es owner f k =
      ((owner, record { at = k.at; owned = k.owned; made = k.made }), f)
  step-Held s opens es owner f k =
      ((owner, record { at = k.at; owned = k.owned; made = k.made }), f)
  step-Held s errors es owner f k =
      ((owner, record { at = k.at; owned = k.owned; made = k.made }), f)
  step-Held s closes es owner f k = (
    (
      owner,
      record {
        at =
            λ p h. rw (close-promises s p) (At-closed (s.promises p) (owner p) p s.msgs (k.at p h));
        owned = k.owned;
        made = k.made;
      },
    ),
    f,
  )
  step-Held s (sends tid m) es owner f k =
      ((owned_by tid s.next_promise owner, send-Held tid m s owner f.0 k), f.1)
  step-Held s (receives tid m) es owner f k =
      ((owner, answer-Held tid m s owner (lookup tid s.msgs) refl k), f)

  run-Held :
      (s : Signaling M) (es : List (Event M)) (owner : ℕ → ℕ)
      → IsFresh s es
      → Held s owner
      → (owner' : ℕ → ℕ) × Held (run s es) owner'
  unfolding run
  run-Held s [] owner f k = (owner, k)
  run-Held s (e ∷ es) owner f k =
      let ((owner', now), later) = step-Held s e es owner f k in
      run-Held (step s e) es owner' later now

  -- After every history in which no request draws a tid that the table still has, for every promise
  -- that was made: it is in the table if it is pending, so that a reply or `close` can settle it; it
  -- has left the table if it was resolved; and if the page closes now, it is not pending.
  pub run-IsPlaced :
      (es : List (Event M)) (p : ℕ)
      → IsFresh init es
      → p < (run init es).next_promise
      → IsPlaced ((run init es).promises p) (waits p (run init es).msgs)
        × ((close (run init es)).promises p ≢ pending)
  run-IsPlaced es p fresh made =
      let (owner, held) =
        run-Held init es (λ q. q) fresh
          (record { at = λ q h. absurd (omega (arith, h)); owned = tt; made = tt }) in
      let s = run init es in
      let placed = At-IsPlaced (s.promises p) (owner p) p s.msgs (held.at p made) in
      (placed, rw (close-promises s p) (closed_not_pending (s.promises p) (waits p s.msgs) placed))
