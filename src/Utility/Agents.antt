-- ===== src/Utility/Agents.antt =====
-- get_browser_agents of winlin.utility.js: the words that a browser's user agent has.
pub mod Words
use go_live_streaming.Base.{Bool, true, false, Option, none, some}
use go_live_streaming.Base.Text.{Text, codes, index_of?}

pub record Agents : Type 0 where
  pub android : Bool
  pub windows : Bool
  pub iphone : Bool
  pub chrome : Bool
  pub firefox : Bool
  pub qq_browser : Bool
  pub msie : Bool
  pub opera : Bool
  pub mqq_browser : Bool

-- `i != -1`
abbrev pub is_found {ℓ} : {A : Type ℓ} → Option A → Bool
is_found none = false
is_found (some i) = true

-- `agent.indexOf(word) != -1`
unfoldable pub has_word : Text → Text → Bool
unfolding index_of?
has_word agent word = is_found (index_of? agent word)

-- For `navigator.userAgent`.
unfoldable pub get_browser_agents : Text → Agents
unfolding has_word
get_browser_agents agent = record {
  android = has_word agent (codes "Android");
  windows = has_word agent (codes "Windows");
  iphone = has_word agent (codes "iPhone");
  chrome = has_word agent (codes "Chrome");
  firefox = has_word agent (codes "Firefox");
  qq_browser = has_word agent (codes "QQBrowser");
  msie = has_word agent (codes "MSIE");
  opera = has_word agent (codes "Presto");
  mqq_browser = has_word agent (codes "MQQBrowser");
}
