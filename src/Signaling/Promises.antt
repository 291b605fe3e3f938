-- ===== src/Signaling/Promises.antt =====
-- The table of the promises that wait, and what `close` does with it.
use go_live_streaming.Base.{
  ℕ, suc, ◌<◌, ◌≡◌, ◌≢◌, refl, ◌⊎◌, inl, inr, Bool, true, false, Option, List, [], ◌∷◌, arith, ◌==◌,
  if◌then◌else◌,
}
use go_live_streaming.Signaling.Table.{
  Msgs, lookup, assign, delete, Every, Every-assign, Every-delete,
}
use go_live_streaming.Signaling.{
  Promise, rejected, Socket, Signaling, settle, settle_at, connect, on_open, on_error, transmit,
  send, answer, on_message, reject_all, close, Event, connects, opens, errors, closes, sends,
  receives, step, run,
}

-- The promises in the table have been made.
abbrev pub Made : {M : Type 0} → Signaling M → Type 0
Made s = Every (λ t p. p < s.next_promise) s.msgs

Every-mono : (n : ℕ) (msgs : Msgs) → Every (λ t p. p < n) msgs → Every (λ t p. p < suc n) msgs
Every-mono n [] k = tt
Every-mono n ((t, p) ∷ msgs) k = (omega arith, Every-mono n msgs k.1)

-- Whether a promise is in the table.
abbrev pub waits : ℕ → Msgs → Bool
waits p [] = false
waits p ((t, q) ∷ msgs) = if q == p then true else waits p msgs

pub waits-delete :
    (p tid : ℕ) (msgs : Msgs) → waits p msgs ≡ false → waits p (delete tid msgs) ≡ false
unfolding delete
waits-delete p tid [] h = refl
waits-delete p tid ((t, q) ∷ msgs) h = ground (arith, waits-delete p tid msgs)

pub waits-assign :
    (p tid q : ℕ) (msgs : Msgs) → q ≢ p → waits p msgs ≡ false → waits p (assign tid q msgs) ≡ false
unfolding assign
waits-assign p tid q [] n h = ground arith
waits-assign p tid q ((t, r) ∷ msgs) n h = ground (arith, waits-assign p tid q msgs)

module _ {M : Type 0} where
  transmit-table :
      (ws : Socket) (tid : ℕ) (m : M) (p : ℕ) (s : Signaling M)
      → ((transmit ws tid m p s).msgs ≡ s.msgs)
        × ((transmit ws tid m p s).next_promise ≡ s.next_promise)
  unfolding transmit
  transmit-table ws tid m p s = (ground arith, ground arith)

  pub send-table :
      (tid : ℕ) (m : M) (s : Signaling M)
      → ((send tid m s).msgs ≡ assign tid s.next_promise s.msgs)
        × ((send tid m s).next_promise ≡ suc s.next_promise)
  unfolding send
  send-table tid m s = (ground (arith), ground arith)

  answer-table :
      (found : Option ℕ) (tid : ℕ) (m : M) (s : Signaling M)
      → (((answer found tid m s).msgs ≡ s.msgs) ⊎ ((answer found tid m s).msgs ≡ delete tid s.msgs))
        × ((answer found tid m s).next_promise ≡ s.next_promise)
  unfolding answer
  answer-table found tid m s = (ground arith, ground arith)

  pub step-Made : (s : Signaling M) (e : Event M) → Made s → Made (step s e)
  unfolding step connect on_open on_error close on_message
  step-Made s (connects schema host room display) k = k
  step-Made s opens k = k
  step-Made s errors k = k
  step-Made s closes k = k
  step-Made s (sends tid m) k =
      let after = send-table tid m s in
      rw (after.0, after.1)
        (Every-assign (λ t p. p < suc s.next_promise) tid s.next_promise s.msgs (omega arith)
          (Every-mono s.next_promise s.msgs k))
  step-Made s (receives tid m) k =
      let after = answer-table (lookup tid s.msgs) tid m s in
      rw after.1 (elim after.0 [
        | inl same ↦ rw same k
        | inr less ↦ rw less (Every-delete (λ t p. p < s.next_promise) tid s.msgs k)
      ])

  pub run-Made : (s : Signaling M) (es : List (Event M)) → Made s → Made (run s es)
  unfolding run
  run-Made s [] k = k
  run-Made s (e ∷ es) k = run-Made (step s e) es (step-Made s e k)

  reject_all_lem :
      (msgs : Msgs) (promises : ℕ → Promise M) (p : ℕ)
      → reject_all msgs promises p
        ≡ (if waits p msgs then settle (promises p) rejected else promises p)
  unfolding reject_all
  reject_all_lem [] promises p = refl
  reject_all_lem ((t, q) ∷ msgs) promises p =
      ground (arith, reject_all_lem msgs (settle_at q rejected promises) p)

  -- `close` rejects the promises of the table that are pending, and changes no other.
  pub close-promises :
      (s : Signaling M) (p : ℕ)
      → (close s).promises p
        ≡ (if waits p s.msgs then settle (s.promises p) rejected else s.promises p)
  unfolding close
  close-promises s p = reject_all_lem s.msgs s.promises p
