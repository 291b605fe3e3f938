-- ===== src/Console/Routes/Tests.antt =====
-- The texts of the console in two languages, for concrete values.
use go_live_streaming.Base.{◌≡◌, refl, true, false, none}
use go_live_streaming.Base.Text.{codes, text_eq}
use go_live_streaming.Console.Routes.{
  Security, texts_en, texts_cn, sc_filter_security, sc_filter_obj, sc_filter_ctype, sc_filter_yn,
}

abbrev rule : Security
rule = record { action = codes "deny"; method = codes "play"; entry = codes "all" }

security_en : sc_filter_security texts_en rule ≡ codes "Denied All Play"
unfolding sc_filter_security texts_en text_eq
security_en = refl

security_cn : sc_filter_security texts_cn rule ≡ codes "禁止 所有人 播放"
unfolding sc_filter_security texts_cn text_eq
security_cn = refl

obj_en : sc_filter_obj texts_en none ≡ codes "Unknown"
unfolding sc_filter_obj texts_en
obj_en = refl

ctype_cn : sc_filter_ctype texts_cn true ≡ codes "推流"
unfolding sc_filter_ctype texts_cn
ctype_cn = refl

yn_test : sc_filter_yn false ≡ codes "N"
unfolding sc_filter_yn
yn_test = refl
