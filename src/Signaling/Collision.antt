-- ===== src/Signaling/Collision.antt =====
-- A tid that is drawn twice: the first of the two requests is never answered.
use go_live_streaming.Base.{ℕ, suc, ◌<◌, ◌≡◌, ◌≢◌, refl, ◌∙◌, false, some, List, [], ◌∷◌, arith}
use go_live_streaming.Signaling.Table.{Msgs, lookup, assign, Every}
use go_live_streaming.Signaling.{
  pending, opened, Signaling, init, connect, on_open, on_error, send, on_message, close, Event,
  connects, opens, errors, closes, sends, receives, step, run,
}
use go_live_streaming.Signaling.Promises.{
  Made, run-Made, waits, waits-delete, waits-assign, close-promises,
}

-- The promise p has been made and is in the table no more.
abbrev Lost : {M : Type 0} → ℕ → Signaling M → Type 0
Lost p s = (p < s.next_promise) × (waits p s.msgs ≡ false)

waits-below : (p : ℕ) (msgs : Msgs) → Every (λ t r. r < p) msgs → waits p msgs ≡ false
waits-below p [] k = refl
waits-below p ((t, r) ∷ msgs) k = ground (arith, k.0, waits-below p msgs k.1)

-- Assigning to a tid twice loses the first promise, if nothing else held it.
waits-assign_twice :
    (p q tid : ℕ) (msgs : Msgs)
    → q ≢ p
    → Every (λ t r. r < p) msgs
    → waits p (assign tid q (assign tid p msgs)) ≡ false
unfolding assign
waits-assign_twice p q tid [] n k = ground arith
waits-assign_twice p q tid ((t, r) ∷ msgs) n k =
    ground (arith, k.0, waits-assign_twice p q tid msgs n k.1, waits-below p msgs k.1)

waits-lookup : (p tid : ℕ) (msgs : Msgs) → waits p msgs ≡ false → lookup tid msgs ≢ some p
unfolding lookup
waits-lookup p tid [] h e = cc
waits-lookup p tid ((t, q) ∷ msgs) h e = ground (arith, waits-lookup p tid msgs)

module _ {M : Type 0} where
  on_message-Lost :
      (p tid : ℕ) (m : M) (s : Signaling M)
      → Lost p s
      → Lost p (on_message tid m s) × ((on_message tid m s).promises p ≡ s.promises p)
  unfolding on_message
  on_message-Lost p tid m s (h, k) = (
    (ground arith, ground (arith, k, waits-delete p tid s.msgs)),
    ground (arith, waits-lookup p tid s.msgs k),
  )

  send-Lost :
      (p tid : ℕ) (m : M) (s : Signaling M)
      → Lost p s
      → Lost p (send tid m s) × ((send tid m s).promises p ≡ s.promises p)
  unfolding send
  send-Lost p tid m s (h, k) =
      ((ground arith, ground (arith, k, waits-assign p tid s.next_promise s.msgs)), ground arith)

  close-Lost :
      (p : ℕ) (s : Signaling M)
      → Lost p s
      → Lost p (close s) × ((close s).promises p ≡ s.promises p)
  unfolding close
  close-Lost p s (h, k) = ((h, k), close-promises s p ∙ rw k)

  send_twice :
      (tid : ℕ) (m n : M) (s : Signaling M)
      → s.ws ≡ opened
      → Made s
      → Lost s.next_promise (send tid n (send tid m s))
        × ((send tid n (send tid m s)).promises s.next_promise ≡ pending)
  unfolding send
  send_twice tid m n s on k = (
    (
      ground arith,
      ground (
        arith,
        waits-assign_twice s.next_promise (suc s.next_promise) tid s.msgs (λ e. omega arith) k,
      ),
    ),
    ground arith,
  )

  step-Lost :
      (p : ℕ) (s : Signaling M) (e : Event M)
      → Lost p s
      → Lost p (step s e) × ((step s e).promises p ≡ s.promises p)
  unfolding step connect on_open on_error
  step-Lost p s (connects schema host room display) l = (l, refl)
  step-Lost p s opens l = (l, refl)
  step-Lost p s errors l = (l, refl)
  step-Lost p s closes l = close-Lost p s l
  step-Lost p s (sends tid m) l = send-Lost p tid m s l
  step-Lost p s (receives tid m) l = on_message-Lost p tid m s l

  run-Lost :
      (p : ℕ) (s : Signaling M) (es : List (Event M))
      → Lost p s
      → (run s es).promises p ≡ s.promises p
  unfolding run
  run-Lost p s [] l = refl
  run-Lost p s (e ∷ es) l =
      let after = step-Lost p s e l in run-Lost p (step s e) es after.0 ∙ after.1

  -- After every history with an open socket: if two requests draw the same tid, the promise of the
  -- first stays pending for ever, whatever comes later, `close` included.
  pub send_twice-pending :
      (before after : List (Event M)) (tid : ℕ) (m n : M)
      → (run init before).ws ≡ opened
      → (run (send tid n (send tid m (run init before))) after).promises
          (run init before).next_promise
        ≡ pending
  send_twice-pending before after tid m n on =
      let s = run init before in
      let both = send_twice tid m n s on (run-Made init before tt) in
      run-Lost s.next_promise (send tid n (send tid m s)) after both.0 ∙ both.1
