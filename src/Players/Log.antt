-- ===== src/Players/Log.antt =====
-- The log element of the player pages: srs.log.js.
pub mod Laws
use go_live_streaming.Base.{ℕ, Bool, true, false, List, [], ◌∷◌, ◌++◌, if◌then◌else◌}
use go_live_streaming.Base.Text.{Text, codes}
use go_live_streaming.Base.Decimal.{dec}

-- The classes of #txt_log, and the texts of its two spans.
pub record LogBox : Type 0 where
  pub alert_info : Bool
  pub alert_error : Bool
  pub alert_warn : Bool
  pub title : Text
  pub msg : Text

-- A call of `info`, `warn` or `error`.
pub data Entry : Type 0 where
  infos : Text → Entry
  warns : ℕ → Text → Entry
  errors : ℕ → Text → Entry

module _ (srs_log_disabled : Bool) where
  unfoldable pub info : Text → LogBox → LogBox
  info desc box = if srs_log_disabled then box else record {
    alert_info = true;
    alert_error = false;
    alert_warn = false;
    title = codes "Info:";
    msg = desc;
  }

  unfoldable pub warn : ℕ → Text → LogBox → LogBox
  warn code desc box = if srs_log_disabled then box else record {
    alert_info = false;
    alert_error = false;
    alert_warn = true;
    title = codes "Warn:";
    msg = codes "code: " ++ (dec code ++ (codes ", " ++ desc));
  }

  unfoldable pub error : ℕ → Text → LogBox → LogBox
  error code desc box = if srs_log_disabled then box else record {
    alert_info = false;
    alert_error = true;
    alert_warn = false;
    title = codes "Error:";
    msg = codes "code: " ++ (dec code ++ (codes ", " ++ desc));
  }

  unfoldable pub logged : Entry → LogBox → LogBox
  unfolding info warn error
  logged (infos desc) = info desc
  logged (warns code desc) = warn code desc
  logged (errors code desc) = error code desc

  unfoldable pub run : LogBox → List Entry → LogBox
  unfolding logged
  run box [] = box
  run box (e ∷ es) = run (logged e box) es
