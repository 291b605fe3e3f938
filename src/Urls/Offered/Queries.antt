-- ===== src/Urls/Offered/Queries.antt =====
-- The query of the URLs that the pages offer (srs.page.js), as keys and values, and what the SDK's
-- reader of queries makes of it.
use mathlib.Core.List.{map-append}
use go_live_streaming.Base.{
  Bool, ◌≡◌, refl, sym, ap, ◌∙◌, true, false, not, ◌&&◌, Option, none, some, List, [], ◌∷◌, ◌++◌,
  arith, map, if◌then◌else◌,
}
use go_live_streaming.Base.Text.{
  Text, codes, text_eq, text_eq_iff, join, index_of?, starts_with, is_empty,
}
use go_live_streaming.Base.Split.{Lacks, split-join, index_of?-Lacks}
use go_live_streaming.Base.Dict.{Dict, lookup}
use go_live_streaming.Urls.Query.{
  Value, Parsed, Window, truthy, fill_query, after_mark, second, or_else,
}
use go_live_streaming.Urls.Query.Laws.{Pairs, elem_of, query_of, last_of, after_mark-none}
use go_live_streaming.Urls.Rtmp.{print}
use go_live_streaming.Urls.Page.{
  member, reserved, pushed, extra_params, user_extra_params, field_or, vhost_query, schema_query,
  rtc_queries,
}

-- The pairs that the queries of a page are written from.
abbrev pub vhost_pairs : Text → Text → Pairs
vhost_pairs server vhost =
    if not (text_eq server vhost) && not (text_eq vhost (codes "__defaultVhost__"))
    then (codes "vhost", vhost) ∷ []
    else []

abbrev pub schema_pairs : Window → Option Value → Pairs
schema_pairs w none = []
schema_pairs w (some v) =
    if text_eq w.protocol (print v ++ codes ":") then [] else (codes "schema", print v) ∷ []

abbrev pub pushed_pairs : Text → Option Value → Pairs
pushed_pairs key none = []
pushed_pairs key (some v) = (key, print v) ∷ []

unfoldable pub extra_pairs : Dict Value → Dict Value → Pairs
extra_pairs fields [] = []
extra_pairs fields ((key, v) ∷ keys) =
    let rest = extra_pairs fields keys in
    if member key reserved then rest else pushed_pairs key (truthy (lookup key fields)) ++ rest

unfoldable pub offered_pairs : Window → Parsed → Pairs
offered_pairs w query =
    (vhost_pairs (field_or (codes "server") w.hostname query)
        (field_or (codes "vhost") w.hostname query)
      ++ schema_pairs w (truthy (lookup (codes "schema") query.fields)))
    ++ extra_pairs query.fields query.user_query

vhost_pairs-elems :
    (server vhost : Text) → vhost_query server vhost ≡ map elem_of (vhost_pairs server vhost)
unfolding vhost_query join
vhost_pairs-elems server vhost = ground arith

schema_pairs-elems :
    (w : Window) (o : Option Value) → schema_query w o ≡ map elem_of (schema_pairs w o)
unfolding join
schema_pairs-elems w none = refl
schema_pairs-elems w (some v) = ground arith

pushed_pairs-elems :
    (key : Text) (o : Option Value) → pushed key o ≡ map elem_of (pushed_pairs key o)
unfolding join
pushed_pairs-elems key none = refl
pushed_pairs-elems key (some v) = refl

extra_step :
    (skip : Bool) (key : Text) (o : Option Value) (es : List Text) (ps : Pairs)
    → es ≡ map elem_of ps
    → (if skip then es else pushed key o ++ es)
      ≡ map elem_of (if skip then ps else pushed_pairs key o ++ ps)
extra_step true key o es ps e = e
extra_step false key o es ps e =
    ap (λ l. l ++ es) (pushed_pairs-elems key o)
    ∙ (ap (λ l. map elem_of (pushed_pairs key o) ++ l) e
        ∙ sym (map-append elem_of (pushed_pairs key o) ps))

extra_pairs-elems :
    (fields keys : Dict Value) → extra_params fields keys ≡ map elem_of (extra_pairs fields keys)
unfolding extra_params extra_pairs
extra_pairs-elems fields [] = refl
extra_pairs-elems fields ((key, v) ∷ keys) =
    extra_step (member key reserved) key (truthy (lookup key fields)) (extra_params fields keys)
      (extra_pairs fields keys) (extra_pairs-elems fields keys)

all_elems :
    (vs ss es : List Text) (vp sp ep : Pairs)
    → vs ≡ map elem_of vp
    → ss ≡ map elem_of sp
    → es ≡ map elem_of ep
    → (vs ++ ss) ++ es ≡ map elem_of ((vp ++ sp) ++ ep)
all_elems vs ss es vp sp ep v s e =
    ap (λ l. (l ++ ss) ++ es) v
    ∙ (ap (λ l. (map elem_of vp ++ l) ++ es) s
        ∙ (ap (λ l. (map elem_of vp ++ map elem_of sp) ++ l) e
            ∙ (ap (λ l. l ++ map elem_of ep) (sym (map-append elem_of vp sp))
                ∙ sym (map-append elem_of (vp ++ sp) ep))))

pub offered_pairs-query_of :
    (w : Window) (query : Parsed) → rtc_queries w query ≡ query_of (offered_pairs w query)
unfolding rtc_queries user_extra_params offered_pairs
offered_pairs-query_of w query =
    let server = field_or (codes "server") w.hostname query in
    let vhost = field_or (codes "vhost") w.hostname query in
    let schema = truthy (lookup (codes "schema") query.fields) in
    ap (λ l. join l (codes "&"))
      (all_elems (vhost_query server vhost) (schema_query w schema)
        (extra_params query.fields query.user_query) (vhost_pairs server vhost)
        (schema_pairs w schema) (extra_pairs query.fields query.user_query)
        (vhost_pairs-elems server vhost) (schema_pairs-elems w schema)
        (extra_pairs-elems query.fields query.user_query))

last_of-append :
    (key : Text) (ps qs : Pairs)
    → last_of key ps ≡ none
    → last_of key qs ≡ none
    → last_of key (ps ++ qs) ≡ none
unfolding last_of
last_of-append key [] qs h k = k
last_of-append key ((j, v) ∷ ps) qs h k = ground (arith, h, last_of-append key ps qs, k)

member-reserved :
    (k key : Text) (ks : List Text)
    → text_eq k key ≡ true
    → member key ks ≡ true
    → member k ks ≡ true
member-reserved k key ks e h = ap (λ t. member t ks) ((text_eq_iff k key).0 e) ∙ h

extra_lack :
    (skip : Bool) (k key : Text) (o : Option Value) (ps : Pairs)
    → (text_eq k key ≡ true → skip ≡ true)
    → last_of key ps ≡ none
    → last_of key (if skip then ps else pushed_pairs k o ++ ps) ≡ none
unfolding last_of
extra_lack true k key o ps h e = e
extra_lack false k key none ps h e = e
extra_lack false k key (some v) ps h e = ground (arith, h, e)

-- The extra queries have no reserved key.
last_of-extra_pairs :
    (fields keys : Dict Value) (key : Text)
    → member key reserved ≡ true
    → last_of key (extra_pairs fields keys) ≡ none
unfolding last_of extra_pairs
last_of-extra_pairs fields [] key h = refl
last_of-extra_pairs fields ((k, v) ∷ keys) key h =
    extra_lack (member k reserved) k key (truthy (lookup k fields)) (extra_pairs fields keys)
      (λ e. member-reserved k key reserved e h) (last_of-extra_pairs fields keys key h)

last_of-vhost_pairs :
    (server vhost key : Text)
    → text_eq (codes "vhost") key ≡ false
    → last_of key (vhost_pairs server vhost) ≡ none
unfolding last_of
last_of-vhost_pairs server vhost key h = ground (arith, h)

last_of-schema_pairs :
    (w : Window) (o : Option Value) (key : Text)
    → text_eq (codes "schema") key ≡ false
    → last_of key (schema_pairs w o) ≡ none
unfolding last_of
last_of-schema_pairs w none key h = refl
last_of-schema_pairs w (some v) key h = ground (arith, h)

-- Of the reserved keys only "vhost" and "schema" are in the query.
pub last_of-offered_pairs :
    (w : Window) (query : Parsed) (key : Text)
    → text_eq (codes "vhost") key ≡ false
    → text_eq (codes "schema") key ≡ false
    → member key reserved ≡ true
    → last_of key (offered_pairs w query) ≡ none
unfolding offered_pairs
last_of-offered_pairs w query key v s h =
    let server = field_or (codes "server") w.hostname query in
    let vhost = field_or (codes "vhost") w.hostname query in
    let schema = truthy (lookup (codes "schema") query.fields) in
    last_of-append key (vhost_pairs server vhost ++ schema_pairs w schema)
      (extra_pairs query.fields query.user_query)
      (last_of-append key (vhost_pairs server vhost) (schema_pairs w schema)
        (last_of-vhost_pairs server vhost key v) (last_of-schema_pairs w schema key s))
      (last_of-extra_pairs query.fields query.user_query key h)

after_mark-mark : (q : Text) → Lacks 63 q → after_mark (63 ∷ q) ≡ q
unfolding after_mark index_of? starts_with join
after_mark-mark q h = ap (λ l. or_else (second l) []) (split-join 63 [] (q ∷ []) tt (h, tt))

after_mark-lacks : (q : Text) → Lacks 63 q → after_mark q ≡ q
after_mark-lacks q h = after_mark-none q (index_of?-Lacks 63 q h)

-- A "?" before a query is dropped.
pub fill_query-mark :
    (q : Text) (obj : Parsed)
    → Lacks 63 q
    → is_empty q ≡ false
    → fill_query (63 ∷ q) obj ≡ fill_query q obj
unfolding fill_query
fill_query-mark q obj h e = rw (e, after_mark-mark q h, after_mark-lacks q h) refl
