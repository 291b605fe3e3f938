-- ===== src/Urls/Query/Laws.antt =====
-- A query that was written with "&" and "=" is read as the last value of each key.
use go_live_streaming.Base.{
  ℕ, ◌≡◌, ◌≢◌, refl, ◌∙◌, ap, Bool, true, false, ◌&&◌, Option, none, some, List, [], ◌∷◌, map,
  arith, if◌then◌else◌,
}
use go_live_streaming.Base.Text.{
  Text, codes, text_eq, text_eq_iff, split, join, index_of?, is_empty,
}
use go_live_streaming.Base.Split.{
  Lacks, AllLack, lacks, lacks→Lacks, split-join, index_of?-Lacks, Lacks-concat,
}
use go_live_streaming.Base.Dict.{lookup, lookup-assign}
use go_live_streaming.Urls.Query.{
  Value, str, Parsed, truthy, read_elem, fill_elems, after_mark, alias_vhost, alias_domain,
  fill_query,
}

abbrev pub Pairs : Type 0
Pairs = List (Text × Text)

-- The query that the pairs are written as.
abbrev pub elem_of : Text × Text → Text
elem_of (key, v) = join (key ∷ v ∷ []) (codes "=")

abbrev pub query_of : Pairs → Text
query_of pairs = join (map elem_of pairs) (codes "&")

-- The value that the last pair of the key has.
unfoldable pub last_of : Text → Pairs → Option Value
unfolding text_eq
last_of key [] = none
last_of key ((k, v) ∷ pairs) = elim (last_of key pairs) [
  | some found ↦ some found
  | none ↦ if text_eq k key then some (str v) else none
]

-- No text of the pairs has one of the separators.
abbrev pub Plain : Pairs → Type 0
Plain [] = Unit
Plain ((k, v) ∷ pairs) =
    (Lacks 38 k × Lacks 38 v)
    × ((Lacks 61 k × Lacks 61 v) × ((Lacks 63 k × Lacks 63 v) × Plain pairs))

abbrev pub plain : Pairs → Bool
plain [] = true
plain ((k, v) ∷ pairs) =
    (lacks 38 k && lacks 38 v)
    && ((lacks 61 k && lacks 61 v) && ((lacks 63 k && lacks 63 v) && plain pairs))

and_both : (a b : Bool) → a && b ≡ true → (a ≡ true) × (b ≡ true)
and_both a b h = ground arith

lacks_both : (c : ℕ) (k v : Text) → lacks c k && lacks c v ≡ true → Lacks c k × Lacks c v
lacks_both c k v h =
    let both = and_both (lacks c k) (lacks c v) h in
    (lacks→Lacks c k both.0, lacks→Lacks c v both.1)

pub plain→Plain : (pairs : Pairs) → plain pairs ≡ true → Plain pairs
plain→Plain [] h = tt
plain→Plain ((k, v) ∷ pairs) h =
    let a = and_both (lacks 38 k && lacks 38 v) _ h in
    let b = and_both (lacks 61 k && lacks 61 v) _ a.1 in
    let c = and_both (lacks 63 k && lacks 63 v) (plain pairs) b.1 in
    (lacks_both 38 k v a.0, (lacks_both 61 k v b.0, (lacks_both 63 k v c.0, plain→Plain pairs c.1)))

abbrev pub or_value : Option Value → Option Value → Option Value
or_value (some v) old = some v
or_value none old = old

or_value-none : (o : Option Value) → or_value o none ≡ o
or_value-none none = refl
or_value-none (some v) = refl

Lacks-elem : (c : ℕ) (k v : Text) → c ≢ 61 → Lacks c k → Lacks c v → Lacks c (elem_of (k, v))
unfolding join
Lacks-elem c k v ne h g = Lacks-concat c k (61 ∷ v) h (ground arith, g)

AllLack-elems : (pairs : Pairs) → Plain pairs → AllLack 38 (map elem_of pairs)
AllLack-elems [] h = tt
AllLack-elems ((k, v) ∷ pairs) h =
    (Lacks-elem 38 k v (omega arith) h.0.0 h.0.1, AllLack-elems pairs h.1.1.1)

pub Lacks-query : (pairs : Pairs) → Plain pairs → Lacks 63 (query_of pairs)
unfolding join
Lacks-query [] h = tt
Lacks-query ((k, v) ∷ []) h = Lacks-elem 63 k v (omega arith) h.1.1.0.0 h.1.1.0.1
Lacks-query ((k, v) ∷ next ∷ pairs) h =
    Lacks-concat 63 (elem_of (k, v)) (38 ∷ query_of (next ∷ pairs))
      (Lacks-elem 63 k v (omega arith) h.1.1.0.0 h.1.1.0.1)
      (ground arith, Lacks-query (next ∷ pairs) h.1.1.1)

pub after_mark-none : (qs : Text) → index_of? qs (codes "?") ≡ none → after_mark qs ≡ qs
unfolding after_mark
after_mark-none qs e = ground (arith, e)

split-elem : (k v : Text) → Lacks 61 k → Lacks 61 v → split (elem_of (k, v)) 61 ≡ k ∷ v ∷ []
split-elem k v h g = split-join 61 k (v ∷ []) h (g, tt)

last_of-cons :
    (k v : Text) (pairs : Pairs) (key : Text) (old : Option Value)
    → or_value (last_of key pairs) (if text_eq k key then some (str v) else old)
      ≡ or_value (last_of key ((k, v) ∷ pairs)) old
unfolding last_of
last_of-cons k v pairs key old =
    elim (last_of key pairs)
      as (λ o.
        or_value o (if text_eq k key then some (str v) else old)
        ≡ or_value
            (elim o [
              | some found ↦ some found
              | none ↦ if text_eq k key then some (str v) else none
            ])
            old) [ some found ↦ refl | none ↦ ground arith ]

-- What a dictionary holds after the loop.
fill_elems-lookup :
    (pairs : Pairs) (obj : Parsed) (key : Text)
    → Plain pairs
    → (lookup key (fill_elems (map elem_of pairs) obj).user_query
        ≡ or_value (last_of key pairs) (lookup key obj.user_query))
      × (lookup key (fill_elems (map elem_of pairs) obj).fields
          ≡ or_value (last_of key pairs) (lookup key obj.fields))
unfolding fill_elems last_of
fill_elems-lookup [] obj key h = (refl, refl)
fill_elems-lookup ((k, v) ∷ pairs) obj key h =
    let next = read_elem (k ∷ v ∷ []) obj in
    let ih = fill_elems-lookup pairs next key h.1.1.1 in
    let e = split-elem k v h.1.0.0 h.1.0.1 in
    let step : List Text → Parsed = λ q. fill_elems (map elem_of pairs) (read_elem q obj) in
    let user = lookup-assign k key (str v) obj.user_query in
    let field = lookup-assign k key (str v) obj.fields in
    (
      ap (λ q. lookup key (step q).user_query) e
          ∙ (ih.0
              ∙ (ap (or_value (last_of key pairs)) user
                  ∙ last_of-cons k v pairs key (lookup key obj.user_query))),
      ap (λ q. lookup key (step q).fields) e
          ∙ (ih.1
              ∙ (ap (or_value (last_of key pairs)) field
                  ∙ last_of-cons k v pairs key (lookup key obj.fields))),
    )

pub query_of-nonempty : (k v : Text) (pairs : Pairs) → is_empty (query_of ((k, v) ∷ pairs)) ≡ false
unfolding join
query_of-nonempty [] v [] = refl
query_of-nonempty (c ∷ k) v [] = refl
query_of-nonempty [] v (next ∷ pairs) = refl
query_of-nonempty (c ∷ k) v (next ∷ pairs) = refl

map-nonempty :
    (k v : Text) (pairs : Pairs)
    → Plain ((k, v) ∷ pairs)
    → split (after_mark (query_of ((k, v) ∷ pairs))) 38 ≡ map elem_of ((k, v) ∷ pairs)
map-nonempty k v pairs h =
    let lack = AllLack-elems ((k, v) ∷ pairs) h in
    ap (λ q. split q 38) (after_mark-none _ (index_of?-Lacks 63 _ (Lacks-query ((k, v) ∷ pairs) h)))
    ∙ split-join 38 (elem_of (k, v)) (map elem_of pairs) lack.0 lack.1

fill_query-loop :
    (k v : Text) (pairs : Pairs) (obj : Parsed)
    → Plain ((k, v) ∷ pairs)
    → fill_query (query_of ((k, v) ∷ pairs)) obj
      ≡ alias_domain (fill_elems (map elem_of ((k, v) ∷ pairs)) (record obj { user_query = [] }))
unfolding fill_query
fill_query-loop k v pairs obj h =
    ground (arith, query_of-nonempty k v pairs, map-nonempty k v pairs h)

alias_domain-user_query : (obj : Parsed) → (alias_domain obj).user_query ≡ obj.user_query
unfolding alias_domain
alias_domain-user_query obj =
    elim (truthy (lookup (codes "domain") obj.fields))
      as (λ o. (alias_vhost o obj).user_query ≡ obj.user_query) [ none ↦ refl | some v ↦ refl ]

alias_domain-fields :
    (obj : Parsed) (key : Text)
    → lookup key (alias_domain obj).fields ≡ (
        if text_eq (codes "vhost") key
        then or_value (truthy (lookup (codes "domain") obj.fields)) (lookup key obj.fields)
        else lookup key obj.fields)
unfolding alias_domain
alias_domain-fields obj key =
    elim (truthy (lookup (codes "domain") obj.fields))
      as (λ o. lookup key (alias_vhost o obj).fields ≡ (
        if text_eq (codes "vhost") key
        then or_value o (lookup key obj.fields)
        else lookup key obj.fields)) [
          | none ↦ ground arith
          | some v ↦ lookup-assign (codes "vhost") key v obj.fields
        ]

-- A query of keys and values, of which none has an "&", a "=" or a "?", is read as it was written: a
-- key of `user_query` has the value of its last pair and no other key is there, a field other than the
-- virtual host that the query does not give keeps its value, and a domain that is not empty is the virtual host as well.
pub fill_query-query_of :
    (k v : Text) (pairs : Pairs) (obj : Parsed) (key other : Text)
    → Plain ((k, v) ∷ pairs)
    → other ≢ codes "vhost"
    → (lookup key (fill_query (query_of ((k, v) ∷ pairs)) obj).user_query
        ≡ last_of key ((k, v) ∷ pairs))
      × (lookup other (fill_query (query_of ((k, v) ∷ pairs)) obj).fields
          ≡ or_value (last_of other ((k, v) ∷ pairs)) (lookup other obj.fields))
      × (lookup (codes "vhost") (fill_query (query_of ((k, v) ∷ pairs)) obj).fields
          ≡ or_value
              (truthy (
                or_value
                  (last_of (codes "domain") ((k, v) ∷ pairs))
                  (lookup (codes "domain") obj.fields)))
              (or_value
                (last_of (codes "vhost") ((k, v) ∷ pairs))
                (lookup (codes "vhost") obj.fields)))
unfolding lookup last_of
fill_query-query_of k v pairs obj key other h ne =
    let start : Parsed = record obj { user_query = [] } in
    let looped = fill_elems (map elem_of ((k, v) ∷ pairs)) start in
    let e = fill_query-loop k v pairs obj h in
    let fields : (j : Text)
        → lookup j looped.fields ≡ or_value (last_of j ((k, v) ∷ pairs)) (lookup j obj.fields) =
      λ j. (fill_elems-lookup ((k, v) ∷ pairs) start j h).1 in
    (
      ap (λ p. lookup key p.user_query) e
          ∙ (ap (lookup key) (alias_domain-user_query looped)
              ∙ ((fill_elems-lookup ((k, v) ∷ pairs) start key h).0
                  ∙ or_value-none (last_of key ((k, v) ∷ pairs)))),
      ap (λ p. lookup other p.fields) e
          ∙ ground (
            arith,
            alias_domain-fields looped other,
            text_eq_iff (codes "vhost") other,
            fields other,
            ne,
          ),
      ap (λ p. lookup (codes "vhost") p.fields) e
          ∙ (alias_domain-fields looped (codes "vhost")
              ∙ (ap (λ o. or_value (truthy o) (lookup (codes "vhost") looped.fields))
                    (fields (codes "domain"))
                  ∙ ap
                      (or_value (
                        truthy (
                          or_value (last_of (codes "domain") ((k, v) ∷ pairs))
                            (lookup (codes "domain") obj.fields))))
                      (fields (codes "vhost")))),
    )
