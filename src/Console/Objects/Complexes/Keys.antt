-- ===== src/Console/Objects/Complexes/Keys.antt =====
-- The settings that `object2complex` makes, under the paths with dots.
use go_live_streaming.Base.{
  ℕ, ◌≡◌, ◌≢◌, refl, sym, ap, ◌∙◌, inl, inr, Bool, true, false, Option, none, some, List, [], ◌∷◌,
  ◌++◌, arith, Option-cases, if◌then◌else◌,
}
use go_live_streaming.Base.Text.{Text, codes, text_eq, join}
use go_live_streaming.Base.Split.{Lacks, lacks→Lacks}
use mathlib.Core.List.{append_assoc}
use go_live_streaming.Utility.Strings.{system_string_trim}
use go_live_streaming.Utility.Strings.Ends.{system_string_trim_lem}
use go_live_streaming.Console.Objects.{
  Json, null, object, text, Members, Complex, setting, Fields, empty, string_of, setting_of,
  by_type, object2complex,
}
use go_live_streaming.Console.Objects.Complexes.{
  some_injective, text_eq-false, member_at, complex_at, key_at, OffVhosts, path_field,
}

dotted : (s t u : Text) → Lacks 46 u → text_eq (s ++ 46 ∷ t) u ≡ false
unfolding text_eq
dotted [] t [] h = refl
dotted [] t (d ∷ u) h = ground (arith, h.0)
dotted (c ∷ s) t [] h = refl
dotted (c ∷ s) t (d ∷ u) h = ground (arith, dotted s t u h.1)

dotted-OffVhosts : (c : ℕ) (prefix k : Text) (path : List Text) → OffVhosts (c ∷ prefix) k path
unfolding OffVhosts
dotted-OffVhosts c prefix k [] =
    dotted (c ∷ prefix) k (codes "vhosts") (lacks→Lacks 46 (codes "vhosts") refl)
dotted-OffVhosts c prefix k (j ∷ path) = (
  dotted (c ∷ prefix) k (codes "vhosts") (lacks→Lacks 46 (codes "vhosts") refl),
  dotted-OffVhosts c (prefix ++ (codes "." ++ k)) j path,
)

path-OffVhosts :
    (c : ℕ) (k : Text) (path : List Text) → (c ∷ k) ≢ codes "vhosts" → OffVhosts [] (c ∷ k) path
unfolding OffVhosts
path-OffVhosts c k [] h = text_eq-false (c ∷ k) (codes "vhosts") h
path-OffVhosts c k (j ∷ path) h =
    (text_eq-false (c ∷ k) (codes "vhosts") h, dotted-OffVhosts c k j path)

key_at-dotted :
    (c : ℕ) (prefix k : Text) (path : List Text)
    → key_at (c ∷ prefix) k path ≡ (c ∷ prefix) ++ (codes "." ++ join (k ∷ path) (codes "."))
unfolding key_at join
key_at-dotted c prefix k [] = refl
key_at-dotted c prefix k (j ∷ path) =
    key_at-dotted c (prefix ++ (codes "." ++ k)) j path
    ∙ append_assoc (c ∷ prefix) (codes "." ++ k) (codes "." ++ join (j ∷ path) (codes "."))

key_at-join :
    (c : ℕ) (k : Text) (path : List Text)
    → key_at [] (c ∷ k) path ≡ join ((c ∷ k) ∷ path) (codes ".")
unfolding key_at join
key_at-join c k [] = refl
key_at-join c k (j ∷ path) = key_at-dotted c k j path

-- Not an object and not null.
abbrev pub is_leaf : Json → Bool
is_leaf null = false
is_leaf (object ms) = false
is_leaf _ = true

leaf_setting :
    (key : Text) (inner : Option Complex) (v : Json) (c : Complex)
    → is_leaf v ≡ true
    → by_type key inner v ≡ some c
    → c ≡ setting_of key v
unfolding by_type
leaf_setting key inner null c l h = absurd (ground arith)
leaf_setting key inner (object ms) c l h = absurd (ground arith)
leaf_setting key inner _ c l h = sym (some_injective h)

setting_trimmed :
    (key t : Text) (v : Json)
    → system_string_trim key (codes "global.") ≡ some t
    → setting_of key v
      ≡ setting t (if text_eq key (codes "pithy_print_ms") then text (string_of v) else v) false
unfolding setting_of
setting_trimmed key t v h = rw h refl

cons_nil : codes "global." ≢ []
cons_nil = ground arith

module _ (ms : Members) (c : ℕ) (k : Text) (path : List Text) where
  -- The keys of the path with dots between them.
  abbrev pub dotted_path : Text
  unfolding join
  dotted_path = join ((c ∷ k) ∷ path) (codes ".")

  -- Where the conversion returns, every text, number, truth value or array of the object, at any depth
  -- and outside "vhosts", has at the same path a setting with no error: its key is the path with dots,
  -- trimmed of "global.", and its value is the same, as a text for pithy_print_ms.
  pub object2complex-member_at :
      (fs : Fields) (v : Json)
      → object2complex empty ms [] ≡ some fs
      → member_at ms (c ∷ k) path ≡ some v
      → is_leaf v ≡ true
      → (c ∷ k) ≢ codes "vhosts"
      → (t : Text) × (system_string_trim dotted_path (codes "global.") ≡ some t)
        × (complex_at fs (c ∷ k) path
            ≡ some (
                setting t
                  (if text_eq dotted_path (codes "pithy_print_ms") then text (string_of v) else v)
                  false))
  unfolding dotted_path
  object2complex-member_at fs v h m l off =
      let (d, made, at_path) =
        path_field ms [] fs (c ∷ k) path v h m (path-OffVhosts c k path off) in
      let (t, trims, _, _, _, _, _) =
        system_string_trim_lem (codes "global.") cons_nil dotted_path in
      (
        t,
        trims,
        at_path
            ∙ ap some (
                leaf_setting (key_at [] (c ∷ k) path) _ v d l made
                ∙ (ap (λ key. setting_of key v) (key_at-join c k path)
                    ∙ setting_trimmed dotted_path t v trims)),
      )

  -- A null anywhere outside "vhosts" throws.
  pub object2complex_null :
      member_at ms (c ∷ k) path ≡ some null
      → (c ∷ k) ≢ codes "vhosts"
      → object2complex empty ms [] ≡ none
  unfolding by_type
  object2complex_null m off = elim (Option-cases (object2complex empty ms [])) [
    | inl throws ↦ throws
    | inr (fs, h) ↦
        let (d, made, _) =
          path_field ms [] fs (c ∷ k) path null h m (path-OffVhosts c k path off) in
        absurd (ground (arith, made))
  ]
