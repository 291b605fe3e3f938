-- ===== src/Utility/Agents/Words.antt =====
-- A flag of the agent is set exactly if its word occurs.
use mathlib.Core.List.{append_assoc}
use go_live_streaming.Base.{
  ℕ, ◌≡◌, refl, sym, ap, ◌∙◌, ◌↔◌, true, Option, none, some, [], ◌∷◌, ◌++◌, arith, length, take,
  drop, take-append-drop,
}
use go_live_streaming.Base.Text.{
  Text, codes, index_of?, starts_with→eq, index_of?-append, index_of?-starts_with,
}
use go_live_streaming.Utility.Agents.{is_found, has_word, get_browser_agents}

-- The text has the word somewhere.
abbrev pub Occurs : Text → Text → Type 0
Occurs word s = (before after : Text) × (s ≡ before ++ (word ++ after))

found-Occurs :
    (s word : Text) (o : Option ℕ) → index_of? s word ≡ o → is_found o ≡ true → Occurs word s
found-Occurs s word none e h = absurd (ground arith)
found-Occurs s word (some i) e h = (
  take i s,
  drop (length word) (drop i s),
  sym (take-append-drop i s)
      ∙ ap (λ t. take i s ++ t) (starts_with→eq (drop i s) word (index_of?-starts_with s word i e)),
)

Occurs-found :
    (before word after : Text) → is_found (index_of? (before ++ (word ++ after)) word) ≡ true
unfolding index_of?
Occurs-found [] word after = ap is_found (index_of?-append after word)
Occurs-found (c ∷ before) word after = ground (arith, Occurs-found before word after)

has_word_iff : (s word : Text) → (has_word s word ≡ true) ↔ Occurs word s
unfolding has_word
has_word_iff s word = (
  found-Occurs s word (index_of? s word) refl,
  λ o. ap (λ t. is_found (index_of? t word)) o.2 ∙ Occurs-found o.0 word o.1,
)

-- Each flag is set exactly if the user agent has its word somewhere.
pub get_browser_agents_iff :
    (agent : Text)
    → (((get_browser_agents agent).android ≡ true) ↔ Occurs (codes "Android") agent)
      × (((get_browser_agents agent).windows ≡ true) ↔ Occurs (codes "Windows") agent)
      × (((get_browser_agents agent).iphone ≡ true) ↔ Occurs (codes "iPhone") agent)
      × (((get_browser_agents agent).chrome ≡ true) ↔ Occurs (codes "Chrome") agent)
      × (((get_browser_agents agent).firefox ≡ true) ↔ Occurs (codes "Firefox") agent)
      × (((get_browser_agents agent).qq_browser ≡ true) ↔ Occurs (codes "QQBrowser") agent)
      × (((get_browser_agents agent).msie ≡ true) ↔ Occurs (codes "MSIE") agent)
      × (((get_browser_agents agent).opera ≡ true) ↔ Occurs (codes "Presto") agent)
      × (((get_browser_agents agent).mqq_browser ≡ true) ↔ Occurs (codes "MQQBrowser") agent)
unfolding get_browser_agents
get_browser_agents_iff agent = (
  has_word_iff agent (codes "Android"),
  has_word_iff agent (codes "Windows"),
  has_word_iff agent (codes "iPhone"),
  has_word_iff agent (codes "Chrome"),
  has_word_iff agent (codes "Firefox"),
  has_word_iff agent (codes "QQBrowser"),
  has_word_iff agent (codes "MSIE"),
  has_word_iff agent (codes "Presto"),
  has_word_iff agent (codes "MQQBrowser"),
)

-- The flag of the mobile QQ browser is never set without that of the QQ browser.
pub mqq_browser_qq_browser :
    (agent : Text)
    → (get_browser_agents agent).mqq_browser ≡ true
    → (get_browser_agents agent).qq_browser ≡ true
mqq_browser_qq_browser agent h =
    let (before, after, e) = (get_browser_agents_iff agent).8.0 h in
    (get_browser_agents_iff agent).5.1 (
      before ++ codes "M",
      after,
      e ∙ sym (append_assoc before (codes "M") (codes "QQBrowser" ++ after)),
    )
