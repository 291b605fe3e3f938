-- ===== src/Sdk/Senders.antt =====
-- SrsRtcFormatSenders of srs.sdk.js: the codecs of the senders of a connection as a text. `none` stands
-- for a TypeError, as where a sender has no track.
pub mod Listing
use go_live_streaming.Base.{
  ℕ, ltb, Bool, true, false, not, ◌&&◌, ◌||◌, Option, none, some, List, [], ◌∷◌, ◌++◌,
  if◌then◌else◌,
}
use go_live_streaming.Base.Text.{Text, codes, text_eq, index_of?, replace, join}
use go_live_streaming.Base.Decimal.{dec}

pub record Codec : Type 0 where
  pub mime_type : Text
  pub clock_rate : ℕ
  pub channels : Option ℕ
  pub payload_type : ℕ

-- `sender.track.kind`, and the codecs of `getParameters`, if there are any.
pub record Sender : Type 0 where
  pub track_kind : Option Text
  pub codecs : Option (List Codec)

-- `s.indexOf(t) > 0`
abbrev pub is_behind : Option ℕ → Bool
is_behind none = false
is_behind (some i) = ltb 0 i

-- Not a medium, but redundancy, retransmission or error correction.
unfoldable pub is_auxiliary : Text → Bool
unfolding index_of?
is_auxiliary mime =
    is_behind (index_of? mime (codes "/red"))
    || (is_behind (index_of? mime (codes "/rtx")) || is_behind (index_of? mime (codes "/fec")))

abbrev pub number_text : Option ℕ → Text
number_text none = codes "undefined"
number_text (some n) = dec n

unfoldable pub codec_text : Text → Codec → Text
unfolding replace text_eq
codec_text track c =
    let name = replace (replace c.mime_type (codes "audio/") []) (codes "video/") [] in
    let rate = name ++ ((codes ", " ++ dec c.clock_rate) ++ codes "HZ") in
    let channels =
      if text_eq track (codes "audio")
      then rate ++ (codes ", channels: " ++ number_text c.channels)
      else rate in
    channels ++ (codes ", pt: " ++ dec c.payload_type)

-- `kind && sender.track.kind !== kind`, for a track; no kind is the empty text.
abbrev pub other_kind : Text → Text → Bool
unfolding text_eq
other_kind [] track = false
other_kind (c ∷ kind) track = not (text_eq track (c ∷ kind))

-- The callback of the inner `forEach`, which returns or pushes.
unfoldable pub push_codec : Text → Text → Codec → List Text → List Text
unfolding other_kind is_auxiliary codec_text
push_codec kind track c texts =
    if other_kind kind track
    then texts
    else if is_auxiliary c.mime_type
    then texts
    else texts ++ codec_text track c ∷ []

abbrev pub push_codecs : Text → Text → List Codec → List Text → List Text
unfolding push_codec
push_codecs kind track [] texts = texts
push_codecs kind track (c ∷ cs) texts = push_codecs kind track cs (push_codec kind track c texts)

-- Without a track nothing is read of it before a codec that is looked at: with a kind that is every
-- codec, and without one those that are pushed.
abbrev pub reads_track : Text → List Codec → Bool
unfolding is_auxiliary
reads_track kind [] = false
reads_track [] (c ∷ cs) = not (is_auxiliary c.mime_type) || reads_track [] cs
reads_track (k ∷ kind) (c ∷ cs) = true

abbrev pub of_sender : Text → Option Text → Option (List Codec) → List Text → Option (List Text)
unfolding push_codecs reads_track
of_sender kind track none texts = some texts
of_sender kind none (some cs) texts = if reads_track kind cs then none else some texts
of_sender kind (some track) (some cs) texts = some (push_codecs kind track cs texts)

abbrev pub then_texts : Option (List Text) → (List Text → Option (List Text)) → Option (List Text)
then_texts none next = none
then_texts (some texts) next = next texts

unfoldable pub of_senders : Text → List Sender → List Text → Option (List Text)
unfolding of_sender
of_senders kind [] texts = some texts
of_senders kind (s ∷ ss) texts =
    then_texts (of_sender kind s.track_kind s.codecs texts) (of_senders kind ss)

abbrev pub joined : Option (List Text) → Option Text
unfolding join
joined none = none
joined (some texts) = some (join texts (codes ", "))

unfoldable pub srs_rtc_format_senders : List Sender → Text → Option Text
unfolding of_senders joined
srs_rtc_format_senders senders kind = joined (of_senders kind senders [])
