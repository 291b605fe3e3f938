-- ===== src/Console/Routes/Laws.antt =====
-- What the texts of the two languages of the console tell apart.
use go_live_streaming.Base.{
  ◌≡◌, ◌≢◌, refl, sym, ap, ◌∙◌, Bool, true, false, [], ◌∷◌, arith, map, if◌then◌else◌, drop,
}
use go_live_streaming.Base.Text.{Text, codes, text_eq, join, split}
use go_live_streaming.Base.Split.{Lacks, lacks→Lacks, split-join}
use go_live_streaming.Urls.Query.{first}
use go_live_streaming.Console.Routes.{
  Texts, texts_en, texts_cn, Security, Route, Controller, routes_en, routes_cn, action_text,
  method_text, entry_text, sc_filter_security,
}

-- The words of a language: none has a space, and what a rule says has a word of its own.
pub record AreWords (t : Texts) : Type 0 where
  pub allow : Lacks 32 t.allow
  pub denied : Lacks 32 t.denied
  pub any : Lacks 32 t.any
  pub publish : Lacks 32 t.publish
  pub play : Lacks 32 t.play
  pub everyone : Lacks 32 t.everyone
  pub allow_denied : t.allow ≢ t.denied
  pub any_publish : t.any ≢ t.publish
  pub any_play : t.any ≢ t.play
  pub publish_play : t.publish ≢ t.play

pub texts_en-AreWords : AreWords texts_en
unfolding texts_en
texts_en-AreWords = record {
  allow = lacks→Lacks 32 (codes "Allow") refl;
  denied = lacks→Lacks 32 (codes "Denied") refl;
  any = lacks→Lacks 32 (codes "Any") refl;
  publish = lacks→Lacks 32 (codes "Publish") refl;
  play = lacks→Lacks 32 (codes "Play") refl;
  everyone = lacks→Lacks 32 (codes "All") refl;
  allow_denied = ground arith;
  any_publish = ground arith;
  any_play = ground arith;
  publish_play = ground arith;
}

pub texts_cn-AreWords : AreWords texts_cn
unfolding texts_cn
texts_cn-AreWords = record {
  allow = lacks→Lacks 32 (codes "允许") refl;
  denied = lacks→Lacks 32 (codes "禁止") refl;
  any = lacks→Lacks 32 (codes "任何操作") refl;
  publish = lacks→Lacks 32 (codes "推流") refl;
  play = lacks→Lacks 32 (codes "播放") refl;
  everyone = lacks→Lacks 32 (codes "所有人") refl;
  allow_denied = ground arith;
  any_publish = ground arith;
  any_play = ground arith;
  publish_play = ground arith;
}

-- A choice of two texts without a space.
Lacks-choice : (c : Bool) (a b : Text) → Lacks 32 a → Lacks 32 b → Lacks 32 (if c then a else b)
Lacks-choice true a b h k = h
Lacks-choice false a b h k = k

choice_inj : (c d : Bool) (a b : Text) → a ≢ b → (if c then a else b) ≡ (if d then a else b) → c ≡ d
choice_inj true true a b ne e = refl
choice_inj true false a b ne e = absurd (ne e)
choice_inj false true a b ne e = absurd (ne (sym e))
choice_inj false false a b ne e = refl

-- Which of the three methods a rule has.
abbrev pub method_kind : Text → Bool × Bool
method_kind method =
    if text_eq method (codes "all")
    then (true, false)
    else (false, text_eq method (codes "publish"))

abbrev choice_of : Bool → Bool → Bool × Bool
choice_of all publish = if all then (true, false) else (false, publish)

module _ (t : Texts) (words : AreWords t) where
  action-Lacks : (action : Text) → Lacks 32 (action_text t action)
  action-Lacks action =
      Lacks-choice (text_eq action (codes "allow")) t.allow t.denied words.allow words.denied

  method-Lacks : (method : Text) → Lacks 32 (method_text t method)
  method-Lacks method =
      Lacks-choice (text_eq method (codes "all")) t.any
        (if text_eq method (codes "publish") then t.publish else t.play) words.any
        (Lacks-choice (text_eq method (codes "publish")) t.publish t.play words.publish words.play)

  entry-Lacks : (entry : Text) → Lacks 32 entry → Lacks 32 (entry_text t entry)
  entry-Lacks entry h = Lacks-choice (text_eq entry (codes "all")) t.everyone entry words.everyone h

  method_inj :
      (a b c d : Bool)
      → (if a then t.any else if b then t.publish else t.play)
        ≡ (if c then t.any else if d then t.publish else t.play)
      → choice_of a b ≡ choice_of c d
  method_inj true b true d e = refl
  method_inj true b false true e = absurd (words.any_publish e)
  method_inj true b false false e = absurd (words.any_play e)
  method_inj false true true d e = absurd (words.any_publish (sym e))
  method_inj false false true d e = absurd (words.any_play (sym e))
  method_inj false b false d e =
      ap (λ k. (false, k)) (choice_inj b d t.publish t.play words.publish_play e)

  -- The text of a rule falls apart at its spaces.
  sc_filter_security-split :
      (v : Security)
      → Lacks 32 v.entry
      → split (sc_filter_security t v) 32
        ≡ action_text t v.action ∷ entry_text t v.entry ∷ method_text t v.method ∷ []
  unfolding sc_filter_security join
  sc_filter_security-split v h =
      split-join 32 (action_text t v.action) (entry_text t v.entry ∷ method_text t v.method ∷ [])
        (action-Lacks v.action) (entry-Lacks v.entry h, (method-Lacks v.method, tt))

  -- Rules with the same text allow or deny alike and for the same kind of method, and their entries are
  -- printed alike, when an entry has no space and the words of the language differ and have none.
  pub sc_filter_security_inj :
      (v u : Security)
      → Lacks 32 v.entry
      → Lacks 32 u.entry
      → sc_filter_security t v ≡ sc_filter_security t u
      → (text_eq v.action (codes "allow") ≡ text_eq u.action (codes "allow"))
        × (entry_text t v.entry ≡ entry_text t u.entry)
        × (method_kind v.method ≡ method_kind u.method)
  sc_filter_security_inj v u h k e =
      let parts =
        sym (sc_filter_security-split v h)
        ∙ (ap (λ s. split s 32) e ∙ sc_filter_security-split u k) in
      (
        choice_inj (text_eq v.action (codes "allow")) (text_eq u.action (codes "allow")) t.allow
            t.denied words.allow_denied (ap first parts),
        ap (λ l. first (drop 1 l)) parts,
        method_inj (text_eq v.method (codes "all")) (text_eq v.method (codes "publish"))
            (text_eq u.method (codes "all")) (text_eq u.method (codes "publish"))
            (ap (λ l. first (drop 2 l)) parts),
      )

-- Of a route, what does not depend on the language.
abbrev pub target : Route → Text × Controller
target r = (r.path, r.controller)

-- The two languages have the same routes, with the same controllers.
pub routes_cn-target : map target routes_cn ≡ map target routes_en
unfolding routes_cn routes_en
routes_cn-target = refl
