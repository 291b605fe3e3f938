-- ===== src/Console/Summary.antt =====
-- The controller CSCSummary of srs.console.js: the rates of the page, from two samples of the server's
-- counters. A rate is a fraction, and a time is in milliseconds.
pub mod Laws
use go_live_streaming.Base.{
  ℕ, ◌+◌, ◌-◌, ltb, leb, Bool, true, false, not, ◌||◌, Option, none, some, List, [], ◌∷◌,
  if◌then◌else◌,
}
use go_live_streaming.Base.Int.{ℤ, pos, sub_ℕ, ◌*ℤ◌}

-- What the handler reads of `data.data`.
pub record Sample : Type 0 where
  pub now_ms : ℕ
  pub net_sample_time : ℕ
  pub net_recv_bytes : ℕ
  pub net_recvi_bytes : ℕ
  pub net_send_bytes : ℕ
  pub net_sendi_bytes : ℕ
  pub srs_sample_time : ℕ
  pub srs_recv_bytes : ℕ
  pub srs_send_bytes : ℕ

-- A fraction: numerator and denominator.
abbrev pub Rate : Type 0
Rate = ℤ × ℕ

pub record Rates : Type 0 where
  pub srs : Rate
  pub sys : Rate
  pub inner : Rate

-- The field `in` is called `into`.
pub record Kbps : Type 0 where
  pub initialized : Bool
  pub into : Rates
  pub out : Rates

-- The fields `pre_kbps` and `kbps` of the scope.
pub record Scope : Type 0 where
  pub pre_kbps : Option Sample
  pub kbps : Option Kbps

abbrev pub zero_rate : Rate
zero_rate = (pos 0, 1)

-- `(a - b) * 8 / diff`, if diff is above 0.
unfoldable pub rate : (a b now before : ℕ) → Rate
unfolding ◌*ℤ◌
rate a b now before = if ltb before now then (sub_ℕ a b *ℤ pos 8, now - before) else zero_rate

unfoldable pub rates_between : Sample → Sample → Kbps
unfolding rate
rates_between pre sample = record {
  initialized = true;
  into = record {
    srs = rate sample.srs_recv_bytes pre.srs_recv_bytes sample.srs_sample_time pre.srs_sample_time;
    sys = rate sample.net_recv_bytes pre.net_recv_bytes sample.net_sample_time pre.net_sample_time;
    inner =
        rate sample.net_recvi_bytes pre.net_recvi_bytes sample.net_sample_time pre.net_sample_time;
  };
  out = record {
    srs = rate sample.srs_send_bytes pre.srs_send_bytes sample.srs_sample_time pre.srs_sample_time;
    sys = rate sample.net_send_bytes pre.net_send_bytes sample.net_sample_time pre.net_sample_time;
    inner =
        rate sample.net_sendi_bytes pre.net_sendi_bytes sample.net_sample_time pre.net_sample_time;
  };
}

abbrev pub zero_rates : Rates
zero_rates = record { srs = zero_rate; sys = zero_rate; inner = zero_rate }

abbrev pub no_rates : Kbps
no_rates = record { initialized = false; into = zero_rates; out = zero_rates }

abbrev pub shows : Sample → Kbps → Scope
shows sample kbps = record { pre_kbps = some sample; kbps = some kbps }

-- `diff >= 20 * 1000`
abbrev pub is_due : Sample → Sample → Bool
is_due pre sample = leb (pre.now_ms + 20000) sample.now_ms

-- The handler on `pre_kbps` and `kbps`: rates that are not there are filled in, and with a sample kept
-- but no rates `$scope.kbps.initialized` throws a TypeError, which is `none`.
unfoldable pub next_rates : Sample → Option Sample → Option Kbps → Option Scope
unfolding rates_between
next_rates sample none none = some (shows sample no_rates)
next_rates sample none (some old) = some (record { pre_kbps = none; kbps = some old })
next_rates sample (some pre) none = none
next_rates sample (some pre) (some old) = some (
    if not old.initialized || is_due pre sample
    then shows sample (rates_between pre sample)
    else shows pre old)

-- The callback of `summaries_get`.
unfoldable pub on_summaries : Sample → Scope → Option Scope
unfolding next_rates
on_summaries sample scope = next_rates sample scope.pre_kbps scope.kbps

-- The page when it opens.
abbrev pub opened : Scope
opened = record { pre_kbps = none; kbps = none }

abbrev pub after : List Sample → Option Scope → Option Scope
after [] scope = scope
after (sample ∷ later) none = none
after (sample ∷ later) (some scope) = after later (on_summaries sample scope)
