-- ===== src/Urls/Query.antt =====
-- The query of a page or of a stream's URL: `__fill_query` and `parse_query_string` of
-- winlin.utility.js, and `fill_query` of srs.sdk.js. No key of a query is "user_query".
pub mod Laws
use go_live_streaming.Base.{
  ℕ, zero, suc, ◌+◌, Bool, true, false, Option, none, some, List, [], ◌∷◌, ◌++◌, if◌then◌else◌,
  drop,
}
use go_live_streaming.Base.Text.{
  Text, codes, index_of?, last_index_of?, slice, replace, split, is_empty,
}
use go_live_streaming.Base.Dict.{Dict, lookup, assign}

-- A field of the object: a text, a number, or undefined, which a key with no "=" has.
pub data Value : Type 0 where
  undefined : Value
  number : ℕ → Value
  str : Text → Value

-- The fields of the object, and its field `user_query`.
pub record Parsed : Type 0 where
  pub fields : Dict Value
  pub user_query : Dict Value

-- `obj[key]`, as a condition
abbrev pub truthy : Option Value → Option Value
truthy none = none
truthy (some undefined) = none
truthy (some (number zero)) = none
truthy (some (number (suc n))) = some (number (suc n))
truthy (some (str [])) = none
truthy (some (str (c ∷ t))) = some (str (c ∷ t))

-- `list[1]`
abbrev pub second : List Text → Option Text
second [] = none
second (a ∷ []) = none
second (a ∷ b ∷ rest) = some b

abbrev pub value_of : Option Text → Value
value_of none = undefined
value_of (some t) = str t

abbrev pub or_else {ℓ} : {A : Type ℓ} → Option A → A → A
or_else none d = d
or_else (some a) d = a

-- The first part of a text that was split: there is always one.
abbrev pub first : List Text → Text
first [] = []
first (a ∷ rest) = a

abbrev pub assign_pair : Text → Value → Parsed → Parsed
assign_pair key v obj = record {
  fields = assign key v obj.fields;
  user_query = assign key v obj.user_query;
}

-- The body of the loop, for `elem.split("=")`: what follows a second "=" is dropped.
abbrev pub read_elem : List Text → Parsed → Parsed
read_elem query = assign_pair (first query) (value_of (second query))

unfoldable pub fill_elems : List Text → Parsed → Parsed
unfolding split assign
fill_elems [] obj = obj
fill_elems (elem_text ∷ rest) obj = fill_elems rest (read_elem (split elem_text 61) obj)

-- Split again for angularjs: the text after the first "?", if there is one.
unfoldable pub after_mark : Text → Text
unfolding index_of? split
after_mark qs = elim (index_of? qs (codes "?")) [
  | none ↦ qs
  | some i ↦ or_else (second (split qs 63)) []
]

-- Alias domain for vhost.
abbrev pub alias_vhost : Option Value → Parsed → Parsed
alias_vhost none obj = obj
alias_vhost (some v) obj = record obj { fields = assign (codes "vhost") v obj.fields }

unfoldable pub alias_domain : Parsed → Parsed
unfolding lookup
alias_domain obj = alias_vhost (truthy (lookup (codes "domain") obj.fields)) obj

unfoldable pub fill_query : Text → Parsed → Parsed
unfolding fill_elems after_mark alias_domain
fill_query qs obj =
    if is_empty qs
    then record obj { user_query = [] }
    else alias_domain (fill_elems (split (after_mark qs) 38) (record obj { user_query = [] }))

-- What the pages read of the browser's `window.location`.
pub record Window : Type 0 where
  pub host : Text
  pub hostname : Text
  pub port : Text
  pub pathname : Text
  pub protocol : Text
  pub href : Text
  pub search : Text
  pub hash : Text

-- `dir` and `filename`
abbrev pub directory : Text → Option ℕ → Text × Text
directory path none = (codes "/", [])
directory path (some zero) = (codes "/", [])
directory path (some (suc i)) = (slice path 0 (suc i), drop (suc i) path)

unfoldable pub uri_object : Window → Dict Value
unfolding last_index_of? assign
uri_object w =
    (codes "host", str w.host)
    ∷ (codes "hostname", str w.hostname)
    ∷ (codes "http_port", if is_empty w.port then number 80 else str w.port)
    ∷ (codes "pathname", str w.pathname)
    ∷ (codes "dir", str (directory w.pathname (last_index_of? w.pathname (codes "/"))).0)
    ∷ (codes "filename", str (directory w.pathname (last_index_of? w.pathname (codes "/"))).1)
    ∷ []

-- The query of the page, or of its hash.
unfoldable pub page_query : Window → Option Text
unfolding replace split
page_query w = elim (second (split (replace w.search (codes " ") []) 63)) [
  | some q ↦ some q
  | none ↦ second (split (replace w.hash (codes " ") []) 35)
]

unfoldable pub parse_query_string : Window → Parsed
unfolding uri_object page_query fill_query
parse_query_string w =
    let obj : Parsed = record { fields = uri_object w; user_query = [] } in
    elim (page_query w) [ none ↦ obj | some q ↦ fill_query q obj ]
