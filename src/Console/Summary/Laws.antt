-- ===== src/Console/Summary/Laws.antt =====
-- The rates that the summary shows.
use go_live_streaming.Base.{
  ℕ, ◌+◌, ◌*◌, ◌≤◌, ◌<◌, ◌≡◌, ◌≢◌, ◌⊎◌, inl, inr, refl, ◌∙◌, ap, true, false, ltb, not, ◌||◌, some,
  List, [], ◌∷◌, arith, Bool-cases,
}
use go_live_streaming.Base.Int.{pos, sub_ℕ, pos_part, neg_part, ◌*ℤ◌}
use go_live_streaming.Console.Summary.{
  Sample, Rate, Kbps, zero_rate, rate, rates_between, no_rates, shows, is_due, on_summaries, opened,
  after,
}

-- A rate of eight times what a counter grew by, from b to a, over the time that has passed: a fraction
-- with that time under it. Where no time has passed it is nought.
abbrev pub IsRate : (a b now before : ℕ) → Rate → Type 0
IsRate a b now before (bits, time) =
    ((before < now) × (pos_part bits + 8 * b ≡ 8 * a + neg_part bits) × (time + before ≡ now))
    ⊎ ((now ≤ before) × ((bits, time) ≡ zero_rate))

-- The rates from one sample to another: what the server and its devices received and sent.
pub record AreRates (pre sample : Sample) (k : Kbps) : Type 0 where
  pub known : k.initialized ≡ true
  pub in_srs :
      IsRate sample.srs_recv_bytes pre.srs_recv_bytes sample.srs_sample_time pre.srs_sample_time
        k.into.srs
  pub in_sys :
      IsRate sample.net_recv_bytes pre.net_recv_bytes sample.net_sample_time pre.net_sample_time
        k.into.sys
  pub in_inner :
      IsRate sample.net_recvi_bytes pre.net_recvi_bytes sample.net_sample_time pre.net_sample_time
        k.into.inner
  pub out_srs :
      IsRate sample.srs_send_bytes pre.srs_send_bytes sample.srs_sample_time pre.srs_sample_time
        k.out.srs
  pub out_sys :
      IsRate sample.net_send_bytes pre.net_send_bytes sample.net_sample_time pre.net_sample_time
        k.out.sys
  pub out_inner :
      IsRate sample.net_sendi_bytes pre.net_sendi_bytes sample.net_sample_time pre.net_sample_time
        k.out.inner

eightfold :
    (a b : ℕ) → pos_part (sub_ℕ a b *ℤ pos 8) + 8 * b ≡ 8 * a + neg_part (sub_ℕ a b *ℤ pos 8)
unfolding ◌*ℤ◌
eightfold a b = ground arith

rate-IsRate : (a b now before : ℕ) → IsRate a b now before (rate a b now before)
unfolding rate
rate-IsRate a b now before = elim (Bool-cases (ltb before now)) [
  | inl e ↦ rw (rate, e) (inl (ground (arith, e), eightfold a b, ground (arith, e)))
  | inr e ↦ rw (rate, e) (inr (ground (arith, e), refl))
]

rates_between-AreRates : (pre sample : Sample) → AreRates pre sample (rates_between pre sample)
unfolding rates_between
rates_between-AreRates pre sample = record {
  known = refl;
  in_srs =
      rate-IsRate sample.srs_recv_bytes pre.srs_recv_bytes sample.srs_sample_time
        pre.srs_sample_time;
  in_sys =
      rate-IsRate sample.net_recv_bytes pre.net_recv_bytes sample.net_sample_time
        pre.net_sample_time;
  in_inner =
      rate-IsRate sample.net_recvi_bytes pre.net_recvi_bytes sample.net_sample_time
        pre.net_sample_time;
  out_srs =
      rate-IsRate sample.srs_send_bytes pre.srs_send_bytes sample.srs_sample_time
        pre.srs_sample_time;
  out_sys =
      rate-IsRate sample.net_send_bytes pre.net_send_bytes sample.net_sample_time
        pre.net_sample_time;
  out_inner =
      rate-IsRate sample.net_sendi_bytes pre.net_sendi_bytes sample.net_sample_time
        pre.net_sample_time;
}

abbrev pub IsOneOf : Sample → List Sample → Type 0
IsOneOf a [] = ⊥
IsOneOf a (b ∷ bs) = (a ≡ b) ⊎ IsOneOf a bs

-- What the page keeps and shows after samples, the latest of them first.
pub record Current (latest : Sample) (before : List Sample) (p : Sample) (k : Kbps) : Type 0 where
  pub kept : IsOneOf p (latest ∷ before)
  pub recent : latest.now_ms < p.now_ms + 20000
  pub rates :
      ((before ≡ []) × (k ≡ no_rates))
      ⊎ ((before ≢ []) × ((pre : Sample) × IsOneOf pre before × AreRates pre p k))

-- Rates that are shown are from a sample before.
earlier :
    (latest : Sample) (before : List Sample) (p : Sample) (k : Kbps)
    → k.initialized ≡ true
    → ((before ≡ []) × (k ≡ no_rates))
      ⊎ ((before ≢ []) × ((pre : Sample) × IsOneOf pre before × AreRates pre p k))
    → (pre : Sample) × IsOneOf pre (latest ∷ before) × AreRates pre p k
earlier latest before p k on (inl (e, f)) =
    absurd (let off : k.initialized ≡ false = ap (λ j. j.initialized) f in ground (arith, on, off))
earlier latest before p k on (inr (e, (pre, m, r))) = (pre, inr m, r)

next-Current :
    (latest : Sample) (before : List Sample) (p : Sample) (k : Kbps) (sample : Sample)
    → Current latest before p k
    → (q : Sample) × (j : Kbps) × (on_summaries sample (shows p k) ≡ some (shows q j))
      × Current sample (latest ∷ before) q j
unfolding on_summaries
next-Current latest before p k sample c = elim (Bool-cases (not k.initialized || is_due p sample)) [
  | inl e ↦ (
    sample,
    rates_between p sample,
    rw e refl,
    record {
      kept = inl refl;
      recent = omega arith;
      rates = inr (λ h. absurd (ground (arith, h)), (p, c.kept, rates_between-AreRates p sample));
    },
  )
  | inr e ↦ (
    p,
    k,
    rw e refl,
    record {
      kept = inr c.kept;
      recent = ground (arith, e);
      rates =
          inr (
            λ h. absurd (ground (arith, h)),
            earlier latest before p k (ground (arith, e)) c.rates,
          );
    },
  )
]

-- The latest sample, and those before it, of a page that gets more of them.
abbrev pub latest_of : Sample → List Sample → Sample
latest_of latest [] = latest
latest_of latest (sample ∷ samples) = latest_of sample samples

abbrev pub before_latest : Sample → List Sample → List Sample → List Sample
before_latest latest before [] = before
before_latest latest before (sample ∷ samples) = before_latest sample (latest ∷ before) samples

after-Current :
    (samples : List Sample) (latest : Sample) (before : List Sample) (p : Sample) (k : Kbps)
    → Current latest before p k
    → (q : Sample) × (j : Kbps) × (after samples (some (shows p k)) ≡ some (shows q j))
      × Current (latest_of latest samples) (before_latest latest before samples) q j
after-Current [] latest before p k c = (p, k, refl, c)
after-Current (sample ∷ samples) latest before p k c =
    let (q, j, e, next) = next-Current latest before p k sample c in
    let (r, i, f, last) = after-Current samples sample (latest ∷ before) q j next in
    (r, i, ap (after samples) e ∙ f, last)

-- However many samples come to a page that has opened, the handler never throws, and the page keeps one
-- of them, which the latest is less than twenty seconds newer than. It shows no rates after one sample,
-- and else the rates from one of the samples before the latest to the one that is kept: for each, eight
-- times what the counter grew by, over the time that passed by its own clock, or nought where none did.
pub opened-Current :
    (sample : Sample) (samples : List Sample)
    → (p : Sample) × (k : Kbps) × (after (sample ∷ samples) (some opened) ≡ some (shows p k))
      × Current (latest_of sample samples) (before_latest sample [] samples) p k
unfolding on_summaries
opened-Current sample samples =
    after-Current samples sample [] sample no_rates
      (record { kept = inl refl; recent = omega arith; rates = inl (refl, refl) })
