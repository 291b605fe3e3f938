-- ===== src/Console/Streams/Paths.antt =====
-- The path of the recordings of a stream: how many parts it has.
use go_live_streaming.Base.{
  ℕ, zero, suc, ◌+◌, ◌-◌, ◌/◌, ◌%◌, ◌≡◌, ◌≢◌, ◌<◌, refl, sym, ltb, ap, ◌∙◌, inl, inr, false, none,
  some, [], ◌∷◌, ◌++◌, arith, length, take, drop, ◌==◌, if◌then◌else◌, Bool-cases, Option-cases,
}
use native.Mathlib.Numerals.{add-one}
use go_live_streaming.Base.Text.{Text, codes, split_from, split, index_of?, starts_with, replace}
use go_live_streaming.Base.Split.{Lacks}
use go_live_streaming.Players.SwfUrl.{hex, percent}
use go_live_streaming.Console.Streams.{
  Vhost, Stream, is_kept, escape_unit, escape_letter, escape, path_part, dvr_path, dvr_id,
}

-- How often a letter occurs.
abbrev pub count : ℕ → Text → ℕ
count c [] = 0
count c (d ∷ s) = if d == c then suc (count c s) else count c s

count-append : (c : ℕ) (s t : Text) → count c (s ++ t) ≡ count c s + count c t
count-append c [] t = omega arith
count-append c (d ∷ s) t = ground (arith, count-append c s t)

count-Lacks : (c : ℕ) (s : Text) → Lacks c s → count c s ≡ 0
count-Lacks c [] h = refl
count-Lacks c (d ∷ s) h = ground (arith, h.0, count-Lacks c s h.1)

length-split_from : (c : ℕ) (part s : Text) → length (split_from c part s) ≡ suc (count c s)
unfolding split_from
length-split_from c part [] = refl
length-split_from c part (d ∷ s) =
    ground (arith, length-split_from c [] s, length-split_from c (part ++ d ∷ []) s)

pub length-split : (c : ℕ) (s : Text) → length (split s c) ≡ suc (count c s)
unfolding split
length-split c s = length-split_from c [] s

hex_ne_slash : (n : ℕ) → n < 16 → hex n ≢ 47
hex_ne_slash n h = ground (arith, h)

percent_slash : (u : ℕ) → count 47 (percent u) ≡ 0
percent_slash u =
    ground (arith, hex_ne_slash (u / 16 % 16) (omega arith), hex_ne_slash (u % 16) (omega arith))

escape_unit_slash : (u : ℕ) → count 47 (escape_unit u) ≡ 0
unfolding escape_unit
escape_unit_slash u = ground (
  arith,
  percent_slash u,
  hex_ne_slash (u / 4096 % 16) (omega arith),
  hex_ne_slash (u / 256 % 16) (omega arith),
  hex_ne_slash (u / 16 % 16) (omega arith),
  hex_ne_slash (u % 16) (omega arith),
)

kept_slash : (c : ℕ) → is_kept c ≡ false → c ≢ 47
unfolding is_kept
kept_slash c h = ground (arith, h)

escape_letter_slash : (c : ℕ) → count 47 (escape_letter c) ≡ count 47 (c ∷ [])
escape_letter_slash c = elim (Bool-cases (is_kept c)) [
  | inl kept ↦ unfold escape_letter in rw (escape_letter, kept) refl
  | inr other ↦
      let one : count 47 (c ∷ []) ≡ 0 = count-Lacks 47 (c ∷ []) (kept_slash c other, tt) in
      elim (Bool-cases (ltb c 65536)) [
        | inl unit ↦
            unfold escape_letter in rw (escape_letter, other, unit) (escape_unit_slash c ∙ sym one)
        | inr pair ↦
            unfold escape_letter in
            rw (escape_letter, other, pair)
              (omega (
                arith,
                one,
                count-append 47 (escape_unit (55296 + (c - 65536) / 1024))
                    (escape_unit (56320 + (c - 65536) % 1024)),
                escape_unit_slash (55296 + (c - 65536) / 1024),
                escape_unit_slash (56320 + (c - 65536) % 1024),
              ))
      ]
]

-- A slash is the only letter that is not escaped to one.
escape_slash : (s : Text) → count 47 (escape s) ≡ count 47 s
unfolding escape
escape_slash [] = refl
escape_slash (c ∷ s) =
    count-append 47 (escape_letter c) (escape s)
    ∙ ground (arith, escape_letter_slash c, escape_slash s)

no_slash : (s : Text) → index_of? s (codes "/") ≡ none → count 47 s ≡ 0
unfolding index_of? starts_with
no_slash [] h = refl
no_slash (c ∷ s) h = ground (arith, h, no_slash s)

first_slash :
    (s : Text) (i : ℕ)
    → index_of? s (codes "/") ≡ some i
    → (count 47 (take i s) ≡ 0) × (suc (count 47 (drop (suc i) s)) ≡ count 47 s)
unfolding index_of? starts_with
first_slash [] i h = absurd (ground arith)
first_slash (c ∷ s) zero h = (refl, ground (arith, h))
first_slash (c ∷ s) (suc i) h = ground (arith, h, first_slash s i)

-- `replace` takes the first slash out only.
replace_slash : (s : Text) → count 47 (replace s (codes "/") (codes "___")) ≡ count 47 s - 1
replace_slash s = elim (Option-cases (index_of? s (codes "/"))) [
  | inl nowhere ↦ unfold replace in rw (replace, nowhere) (omega (arith, no_slash s nowhere))
  | inr (i, found) ↦
      unfold replace in
      let (before, behind) = first_slash s i found in
      let cut : drop (i + 1) s ≡ drop (suc i) s = ap (λ k. drop k s) (add-one i) in
      rw (replace, found, cut)
        (omega (
          arith,
          count-append 47 (take i s ++ codes "___") (drop (suc i) s),
          count-append 47 (take i s) (codes "___"),
          before,
          behind,
        ))
]

path_part_slash : (s : Text) → count 47 (path_part s) ≡ count 47 s - 1
unfolding path_part
path_part_slash s = escape_slash (replace s (codes "/") (codes "___")) ∙ replace_slash s

-- A part of the path with its slash.
next_part : (s t : Text) → count 47 (s ++ (codes "/" ++ t)) ≡ suc (count 47 s + count 47 t)
next_part s t = omega (arith, count-append 47 s (codes "/" ++ t))

dvr_path_slash :
    (owner : Text) (s : Stream)
    → Lacks 47 owner
    → Lacks 47 s.id
    → count 47 (dvr_path owner s) ≡ 5 + (count 47 s.app - 1) + (count 47 s.name - 1)
unfolding dvr_path
dvr_path_slash owner s h k =
    let names = path_part s.app ++ (codes "/" ++ path_part s.name) in
    omega (
      arith,
      next_part owner (s.id ++ (codes "/" ++ names)),
      next_part s.id names,
      next_part (path_part s.app) (path_part s.name),
      count-Lacks 47 owner h,
      count-Lacks 47 s.id k,
      path_part_slash s.app,
      path_part_slash s.name,
    )

-- For a stream with an owner, whose name has no slash, as the id of the stream has none: the path of
-- its recordings has six parts between the slashes, and one more for each slash that the app has
-- behind its first, and that the name has behind its first.
pub dvr_id_parts :
    (stream : Stream) (vhost : Vhost)
    → stream.owner ≡ some vhost
    → Lacks 47 vhost.name
    → Lacks 47 stream.id
    → (path : Text) × (dvr_id stream ≡ some path)
      × (length (split path 47) ≡ 6 + (count 47 stream.app - 1) + (count 47 stream.name - 1))
dvr_id_parts stream vhost e h k = (
  dvr_path vhost.name stream,
  unfold dvr_id in rw (dvr_id, e) refl,
  omega (arith, length-split 47 (dvr_path vhost.name stream), dvr_path_slash vhost.name stream h k),
)
