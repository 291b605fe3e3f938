-- ===== src/Console/Directive/Link.antt =====
-- What scDirective and scPretty2 of srs.console.js read of their attributes: the key that they show for
-- scd-data or scp-data, and the choices of scd-select.
use go_live_streaming.Base.{
  ℕ, suc, ◌≡◌, ap, ◌∙◌, true, false, Option, none, some, List, [], ◌∷◌, ◌++◌, arith, length,
}
use go_live_streaming.Base.Text.{Text, codes, split, join, slice, starts_with-append}
use go_live_streaming.Base.Split.{AllLack, split-join}
use go_live_streaming.Utility.Strings.{
  startswith_text, endswith_text, trim_start, trim_end, trim_end_of, system_string_trim,
}
use go_live_streaming.Utility.Strings.Ends.{startswith_text_iff, slice_tail}
use go_live_streaming.Console.Directive.{comma}

-- `scope.key = system_string_trim(attrs.scdData, "global.")`
unfoldable pub link_key : Text → Option Text
unfolding system_string_trim
link_key attr = system_string_trim attr (codes "global.")

-- `$scope.selects`, where `none` is undefined; an empty text is no choice.
unfoldable pub selects_of : Option Text → Option (List Text) → Option (List Text)
selects_of none selects = selects
selects_of (some []) selects = selects
selects_of (some (c ∷ t)) (some selects) = some selects
selects_of (some (c ∷ t)) none = some (split (c ∷ t) comma)

trim_start-cut :
    (n : ℕ) (s flag : Text)
    → startswith_text s flag ≡ true
    → trim_start (suc n) s flag ≡ trim_start n (slice s (length flag) (length s)) flag
unfolding trim_start
trim_start-cut n s flag h = ground (arith, h)

trim_start-kept :
    (n : ℕ) (s flag : Text) → startswith_text s flag ≡ false → trim_start (suc n) s flag ≡ some s
unfolding trim_start
trim_start-kept n s flag h = ground (arith, h)

trim_end-kept :
    (n : ℕ) (s flag : Text) → endswith_text s flag ≡ false → trim_end (suc n) s flag ≡ some s
unfolding trim_end
trim_end-kept n s flag h = ground (arith, h)

-- The key of an option under "global." is what is behind it.
pub link_key_lem :
    (k : Text)
    → startswith_text k (codes "global.") ≡ false
    → endswith_text k (codes "global.") ≡ false
    → link_key (codes "global." ++ k) ≡ some k
unfolding link_key system_string_trim
link_key_lem k s e =
    let global = codes "global." in
    let there : startswith_text (global ++ k) global ≡ true =
      (startswith_text_iff (global ++ k) global).1 (ground arith, starts_with-append global k) in
    ap (trim_end_of global) (
      trim_start-cut (length (global ++ k)) (global ++ k) global there
      ∙ (ap (λ t. trim_start (length (global ++ k)) t global) (slice_tail global k)
          ∙ trim_start-kept (length (codes "lobal." ++ k)) k global s))
    ∙ trim_end-kept (length k) k global e

-- The choices are the parts between the commas.
pub selects_of-join :
    (c : ℕ) (t : Text) (choices : List Text)
    → AllLack comma ((c ∷ t) ∷ choices)
    → selects_of (some (join ((c ∷ t) ∷ choices) (comma ∷ []))) none ≡ some ((c ∷ t) ∷ choices)
unfolding selects_of join
selects_of-join c t [] h = ap some (split-join comma (c ∷ t) [] h.0 h.1)
selects_of-join c t (d ∷ choices) h = ap some (split-join comma (c ∷ t) (d ∷ choices) h.0 h.1)
