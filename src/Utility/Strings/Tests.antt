-- ===== src/Utility/Strings/Tests.antt =====
-- The theorems on the text helpers at concrete texts.
use go_live_streaming.Base.{ℕ, ◌≡◌, ◌≢◌, refl, true, false, some, [], ◌∷◌, ◌++◌}
use go_live_streaming.Base.Text.{Text, codes, starts_with, index_of?}
use go_live_streaming.Utility.Strings.{
  texts, system_string_startswith, startswith_text, endswith_text, system_string_trim, padding,
}
use go_live_streaming.Utility.Strings.Padding.{repeat}
use go_live_streaming.Utility.Strings.Ends.{system_string_trim_lem}

pad_zero : padding (codes "3") 5 (codes "0") ≡ some (codes "00003")
unfolding padding
pad_zero = refl

starts_either :
    system_string_startswith (codes "http://a") (texts (codes "rtmp" ∷ codes "http" ∷ [])) ≡ true
unfolding system_string_startswith index_of? starts_with
starts_either = refl

trim_key : system_string_trim (codes "global.listen") (codes "global.") ≡ some (codes "listen")
unfolding system_string_trim startswith_text endswith_text index_of? starts_with
trim_key = refl

global_flag : codes "global." ≢ []
global_flag e = cc

system_string_trim_lem_example :
    (r : Text) × (system_string_trim (codes "global.listen") (codes "global.") ≡ some r)
    × (startswith_text r (codes "global.") ≡ false)
    × (endswith_text r (codes "global.") ≡ false)
    × (before after : ℕ) × (codes "global.listen"
        ≡ repeat before (codes "global.") ++ (r ++ repeat after (codes "global.")))
system_string_trim_lem_example =
    system_string_trim_lem (codes "global.") global_flag (codes "global.listen")
