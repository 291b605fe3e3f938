-- ===== src/Console/Filters.antt =====
-- The filters of srs.console.js that print sizes, rates and percentages. A value is a whole number below
-- 2 ^ 53; dividing it by powers of two is exact, and dividing it by 1000 rounds.
pub mod Units
use go_live_streaming.Base.{
  ℕ, zero, suc, ◌+◌, ◌*◌, ltb, if◌then◌else◌, ◌++◌, Option, none, some, Bool, true, false, ◌||◌,
  List, [],
}
use go_live_streaming.Base.Text.{Text, codes, text_eq, slice}
use go_live_streaming.Base.Decimal.{to_fixed, dec}
use go_live_streaming.Base.Double.{Double, to_double, quotient}

unfoldable pub sc_filter_filesize_k : ℕ → Text
unfolding to_fixed
sc_filter_filesize_k v =
    if ltb (1024 * 1024 * 1024 * 1024) v
    then to_fixed 2 v (1024 * 1024 * 1024 * 1024) ++ codes "PB"
    else if ltb (1024 * 1024 * 1024) v
    then to_fixed 2 v (1024 * 1024 * 1024) ++ codes "TB"
    else if ltb (1024 * 1024) v
    then to_fixed 2 v (1024 * 1024) ++ codes "GB"
    else if ltb 1024 v
    then to_fixed 2 v 1024 ++ codes "MB"
    else to_fixed 2 v 1 ++ codes "KB"

unfoldable pub sc_filter_filesize_k2 : ℕ → Text
unfolding to_fixed
sc_filter_filesize_k2 v =
    if ltb (1024 * 1024 * 1024 * 1024) v
    then to_fixed 0 v (1024 * 1024 * 1024 * 1024) ++ codes "PB"
    else if ltb (1024 * 1024 * 1024) v
    then to_fixed 0 v (1024 * 1024 * 1024) ++ codes "TB"
    else if ltb (1024 * 1024) v
    then to_fixed 0 v (1024 * 1024) ++ codes "GB"
    else if ltb 1024 v
    then to_fixed 0 v 1024 ++ codes "MB"
    else to_fixed 0 v 1 ++ codes "KB"

unfoldable pub sc_filter_filerate_k : ℕ → Text
unfolding to_fixed
sc_filter_filerate_k v =
    if ltb (1024 * 1024 * 1024 * 1024) v
    then to_fixed 2 v (1024 * 1024 * 1024 * 1024) ++ codes "PBps"
    else if ltb (1024 * 1024 * 1024) v
    then to_fixed 2 v (1024 * 1024 * 1024) ++ codes "TBps"
    else if ltb (1024 * 1024) v
    then to_fixed 2 v (1024 * 1024) ++ codes "GBps"
    else if ltb 1024 v
    then to_fixed 2 v 1024 ++ codes "MBps"
    else to_fixed 2 v 1 ++ codes "KBps"

unfoldable pub sc_filter_filerate_k2 : ℕ → Text
unfolding to_fixed
sc_filter_filerate_k2 v =
    if ltb (1024 * 1024 * 1024 * 1024) v
    then to_fixed 0 v (1024 * 1024 * 1024 * 1024) ++ codes "PBps"
    else if ltb (1024 * 1024 * 1024) v
    then to_fixed 0 v (1024 * 1024 * 1024) ++ codes "TBps"
    else if ltb (1024 * 1024) v
    then to_fixed 0 v (1024 * 1024) ++ codes "GBps"
    else if ltb 1024 v
    then to_fixed 0 v 1024 ++ codes "MBps"
    else to_fixed 0 v 1 ++ codes "KBps"

-- `x.toFixed(digits)` of a double
unfoldable pub fixed_double : ℕ → Double → Text
unfolding to_fixed
fixed_double digits x = to_fixed digits x.0 x.1

-- `v / 1000.0 / 1000 …`, so many times.
unfoldable pub divided : ℕ → ℕ → Double
unfolding quotient
divided v zero = (v, 1)
divided v (suc n) = quotient (divided v n) 1000

unfoldable pub sc_filter_bitrate_k : ℕ → Text
unfolding fixed_double divided
sc_filter_bitrate_k v =
    if ltb (1000 * 1000 * 1000 * 1000) v
    then fixed_double 2 (divided v 4) ++ codes "Pbps"
    else if ltb (1000 * 1000 * 1000) v
    then fixed_double 2 (divided v 3) ++ codes "Tbps"
    else if ltb (1000 * 1000) v
    then fixed_double 2 (divided v 2) ++ codes "Gbps"
    else if ltb 1000 v
    then fixed_double 2 (divided v 1) ++ codes "Mbps"
    else fixed_double 2 (divided v 0) ++ codes "Kbps"

unfoldable pub sc_filter_bitrate_k2 : ℕ → Text
unfolding fixed_double divided
sc_filter_bitrate_k2 v =
    if ltb (1000 * 1000 * 1000 * 1000) v
    then fixed_double 0 (divided v 4) ++ codes "Pbps"
    else if ltb (1000 * 1000 * 1000) v
    then fixed_double 0 (divided v 3) ++ codes "Tbps"
    else if ltb (1000 * 1000) v
    then fixed_double 0 (divided v 2) ++ codes "Gbps"
    else if ltb 1000 v
    then fixed_double 0 (divided v 1) ++ codes "Mbps"
    else fixed_double 0 (divided v 0) ++ codes "Kbps"

unfoldable pub sc_filter_percent : ℕ → Text
unfolding to_fixed
sc_filter_percent v = to_fixed 2 v 1 ++ codes "%"

unfoldable pub sc_filter_percent2 : ℕ → Text
unfolding to_fixed
sc_filter_percent2 v = to_fixed 0 v 1 ++ codes "%"

-- The argument of the next two is a double, num / den.
unfoldable pub sc_filter_percentf : ℕ → ℕ → Text
unfolding fixed_double to_double
sc_filter_percentf num den = fixed_double 2 (to_double (num * 100) den) ++ codes "%"

unfoldable pub sc_filter_percentf2 : ℕ → ℕ → Text
unfolding fixed_double to_double
sc_filter_percentf2 num den = fixed_double 0 (to_double (num * 100) den) ++ codes "%"

unfoldable pub sc_filter_number : ℕ → Text
unfolding to_fixed
sc_filter_number v = to_fixed 2 v 1
