-- ===== src/Console/Links/StreamUrl.antt =====
-- The URL of a stream, put together from its parts.
use go_live_streaming.Base.{
  Bool-cases, ◌≢◌, ℕ, ◌≡◌, refl, ap, ◌⊎◌, inl, inr, false, some, [], ◌∷◌, ◌++◌, arith, drop-append,
  take-append,
}
use mathlib.Core.List.{append-nil}
use go_live_streaming.Base.Text.{
  Text, codes, text_eq, text_eq_iff, index_of?, last_index_of?, is_empty,
}
use go_live_streaming.Base.Split.{Lacks, index_of?-char, index_of?-Lacks, last_index_of?-char}
use go_live_streaming.Console.Links.{
  Stream, from_index, up_to_index, or_text, with_slash, kept_params, stream_url,
  sc_filter_stream_url,
}

-- The name of the stream: given, or else the last part of the URL of its publisher.
abbrev pub IsNamed : Stream → Text → Type 0
IsNamed v n = (v.name ≡ n) ⊎ ((v.name ≡ []) × ((u : Text) × (v.url ≡ u ++ 47 ∷ n)))

-- No parameters, or those from the "?".
abbrev pub IsQuery : Text → Type 0
IsQuery p = (p ≡ []) ⊎ ((q : Text) × (p ≡ 63 ∷ q))

named :
    (v : Stream) (c : ℕ) (n : Text)
    → Lacks 47 (c ∷ n)
    → IsNamed v (c ∷ n)
    → with_slash (or_text v.name (from_index (last_index_of? v.url (codes "/")) v.url)) ≡ 47 ∷ c ∷ n
named v c n h (inl given) = rw given (ground (arith, h.0))
named v c n h (inr (absent, (u, e))) =
    rw (absent, e, last_index_of?-char 47 u (c ∷ n) h) (ap with_slash (drop-append u (47 ∷ c ∷ n)))

params :
    (t p : Text)
    → Lacks 63 t
    → IsQuery p
    → (up_to_index (index_of? (t ++ p) (codes "?")) (t ++ p) ≡ t)
      × (from_index (index_of? (t ++ p) (codes "?")) (t ++ p) ≡ p)
params t p h (inl e) = rw (e, append-nil t, index_of?-Lacks 63 t h) (refl, refl)
params t p h (inr (q, e)) =
    rw (e, index_of?-char 63 t q h) (take-append t (63 ∷ q), drop-append t (63 ∷ q))

-- The parameters that only say the default vhost.
abbrev pub IsDefault : Text → Type 0
IsDefault p = (p ≡ codes "?vhost=__defaultVhost__") ⊎ (p ≡ codes "?domain=__defaultVhost__")

-- What is left of the parameters.
abbrev pub Keeps : Text → Text → Type 0
Keeps p kept = (IsDefault p × (kept ≡ [])) ⊎ (¬ IsDefault p × (kept ≡ p))

text_eq_ne : (s t : Text) → text_eq s t ≡ false → s ≢ t
text_eq_ne s t h e = let same = (text_eq_iff s t).1 e in absurd (ground (arith, h, same))

kept_params-Keeps : (p : Text) → Keeps p (kept_params p)
unfolding kept_params
kept_params-Keeps p = elim (Bool-cases (text_eq p (codes "?vhost=__defaultVhost__"))) [
  | inl vhost ↦ inl (
    inl ((text_eq_iff p (codes "?vhost=__defaultVhost__")).0 vhost),
    rw (kept_params, vhost) refl,
  )
  | inr other ↦ elim (Bool-cases (text_eq p (codes "?domain=__defaultVhost__"))) [
    | inl domain ↦ inl (
      inr ((text_eq_iff p (codes "?domain=__defaultVhost__")).0 domain),
      rw (kept_params, other, domain) refl,
    )
    | inr neither ↦ inr (
      λ d. elim d [
        | inl e ↦ text_eq_ne p (codes "?vhost=__defaultVhost__") other e
        | inr e ↦ text_eq_ne p (codes "?domain=__defaultVhost__") neither e
      ],
      rw (kept_params, other, neither) refl,
    )
  ]
]

-- For a stream with a URL: the result is the address of its tcUrl up to a "?", a slash and the name,
-- which is the one given or else the last part of the URL, and the parameters from the "?", unless
-- they only say the default vhost or domain, which are dropped.
pub sc_filter_stream_url_lem :
    (v : Stream) (t p : Text) (c : ℕ) (n : Text)
    → is_empty v.url ≡ false
    → v.tc_url ≡ t ++ p
    → Lacks 63 t
    → IsQuery p
    → Lacks 47 (c ∷ n)
    → IsNamed v (c ∷ n)
    → (kept : Text) × (sc_filter_stream_url (some v) ≡ (t ++ 47 ∷ c ∷ n) ++ kept) × Keeps p kept
unfolding sc_filter_stream_url stream_url
sc_filter_stream_url_lem v t p c n has_url address h query k name =
    let (before, behind) = params t p h query in
    (
      kept_params p,
      rw (sc_filter_stream_url, has_url)
          (rw (stream_url, address, before, behind, named v c n k name) refl),
      kept_params-Keeps p,
    )
