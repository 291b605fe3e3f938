-- ===== src/Sdk/Senders/Listing.antt =====
-- The text of the senders, where each has a track.
use mathlib.Core.List.{append_assoc, append-nil}
use go_live_streaming.Base.{
  ◌≡◌, refl, sym, ap, ◌∙◌, Bool, true, false, not, ◌&&◌, Option, none, some, List, [], ◌∷◌, ◌++◌,
  map, arith, keep_if, Bool-cases, inl, inr,
}
use go_live_streaming.Base.Text.{Text, codes, join}
use go_live_streaming.Sdk.Senders.{
  Codec, Sender, is_auxiliary, codec_text, other_kind, push_codec, push_codecs, of_sender,
  of_senders, then_texts, joined, srs_rtc_format_senders,
}

-- The codecs of a sender that are listed.
abbrev pub listed : Text → Text → Codec → Bool
unfolding other_kind is_auxiliary
listed kind track c = not (other_kind kind track) && not (is_auxiliary c.mime_type)

abbrev pub texts_of : Text → Option Text → Option (List Codec) → List Text
unfolding listed codec_text
texts_of kind none cs = []
texts_of kind (some track) none = []
texts_of kind (some track) (some cs) = map (codec_text track) (keep_if (listed kind track) cs)

abbrev pub all_texts : Text → List Sender → List Text
unfolding texts_of
all_texts kind [] = []
all_texts kind (s ∷ ss) = texts_of kind s.track_kind s.codecs ++ all_texts kind ss

abbrev pub HasTracks : List Sender → Type 0
HasTracks [] = Unit
HasTracks (s ∷ ss) = ((track : Text) × (s.track_kind ≡ some track)) × HasTracks ss

pushed :
    (kind track : Text) (c : Codec) (texts : List Text)
    → listed kind track c ≡ true
    → push_codec kind track c texts ≡ texts ++ codec_text track c ∷ []
unfolding push_codec listed
pushed kind track c texts h = ground (arith, h)

skipped :
    (kind track : Text) (c : Codec) (texts : List Text)
    → listed kind track c ≡ false
    → push_codec kind track c texts ≡ texts
unfolding push_codec listed
skipped kind track c texts h = ground (arith, h)

push_codecs-append :
    (kind track : Text) (cs : List Codec) (texts : List Text)
    → push_codecs kind track cs texts
      ≡ texts ++ map (codec_text track) (keep_if (listed kind track) cs)
unfolding push_codecs push_codec listed
push_codecs-append kind track [] texts = sym (append-nil texts)
push_codecs-append kind track (c ∷ cs) texts = elim (Bool-cases (listed kind track c)) [
  | inl wanted ↦
      push_codecs-append kind track cs (push_codec kind track c texts)
      ∙ (ap (λ ts. ts ++ map (codec_text track) (keep_if (listed kind track) cs))
            (pushed kind track c texts wanted)
          ∙ rw wanted (
              append_assoc texts (codec_text track c ∷ [])
                (map (codec_text track) (keep_if (listed kind track) cs))))
  | inr unwanted ↦
      push_codecs-append kind track cs (push_codec kind track c texts)
      ∙ (ap (λ ts. ts ++ map (codec_text track) (keep_if (listed kind track) cs))
            (skipped kind track c texts unwanted)
          ∙ rw unwanted refl)
]

of_sender-append :
    (kind track : Text) (cs : Option (List Codec)) (texts : List Text)
    → of_sender kind (some track) cs texts ≡ some (texts ++ texts_of kind (some track) cs)
unfolding of_sender texts_of
of_sender-append kind track none texts = ap some (sym (append-nil texts))
of_sender-append kind track (some cs) texts = ap some (push_codecs-append kind track cs texts)

of_senders-append :
    (kind : Text) (ss : List Sender) (texts : List Text)
    → HasTracks ss
    → of_senders kind ss texts ≡ some (texts ++ all_texts kind ss)
unfolding of_senders all_texts
of_senders-append kind [] texts h = ap some (sym (append-nil texts))
of_senders-append kind (s ∷ ss) texts ((track, e), h) =
    ap (λ o. then_texts (of_sender kind o s.codecs texts) (of_senders kind ss)) e
    ∙ (ap (λ o. then_texts o (of_senders kind ss)) (of_sender-append kind track s.codecs texts)
        ∙ (of_senders-append kind ss (texts ++ texts_of kind (some track) s.codecs) h
            ∙ ap some (
                append_assoc texts (texts_of kind (some track) s.codecs) (all_texts kind ss)
                ∙ ap (λ o. texts ++ (texts_of kind o s.codecs ++ all_texts kind ss)) (sym e))))

-- Where every sender has a track, the text lists the codecs of those of the kind, or of all without a
-- kind, in their order and less the auxiliary ones, with ", " between them.
pub srs_rtc_format_senders-join :
    (ss : List Sender) (kind : Text)
    → HasTracks ss
    → srs_rtc_format_senders ss kind ≡ some (join (all_texts kind ss) (codes ", "))
unfolding srs_rtc_format_senders joined
srs_rtc_format_senders-join ss kind h = ap joined (of_senders-append kind ss [] h)
