-- ===== src/Json/Mentions.antt =====
-- A value whose text does not include `___dates___` has no dates, and is written as it is.
use js_code_runner.Common.{◌≡◌, refl, ap, subst, ◌∙◌, String, true, false, List, [], ◌∷◌, arith}
use js_code_runner.Json.{
  Value, null, string_of, date_of, other, array, object, Items, nil, cons, Fields, end, field,
}
use js_code_runner.Json.Dates.{
  date_texts, dates_property, written, written_items, written_fields, mentions, mentions_items,
  mentions_fields,
}
use js_code_runner.Json.Clean.{
  is_clean, clean_items, clean_fields, texted, texted_fields, all_listed, all_listed-date_texts,
  not_dated, texted-undated,
}

mentions_fields-more :
    (fs more : Fields)
    → mentions_fields (written_fields fs more) ≡ false
    → mentions_fields more ≡ false
unfolding mentions written
mentions_fields-more end more h = h
mentions_fields-more (field k v fs) more h = mentions_fields-more fs more (ground (arith, h))

-- The list of dates is mentioned, so there is none.
undated_fields :
    (fs : Fields) (texts : List String)
    → date_texts fs [] ≡ texts
    → mentions_fields (dates_property texts) ≡ false
    → texted_fields fs (dates_property texts) ≡ fs
unfolding mentions
undated_fields fs [] e absent = texted-undated fs (
    subst (λ (l : List String). all_listed l fs ≡ true) e
      (all_listed-date_texts fs fs [] (λ t h. h)))
undated_fields fs (t ∷ ts) e absent = cc

mutual
  unfolding written is_clean mentions

  pub written-unmentioned :
      (v : Value) → is_clean v ≡ true → mentions (written v) ≡ false → written v ≡ texted v
  written-unmentioned null h absent = refl
  written-unmentioned (string_of s) h absent = refl
  written-unmentioned (date_of t) h absent = refl
  written-unmentioned (other o) h absent = refl
  written-unmentioned (array vs) h absent =
      ap (λ (us : Items). array us) (written_items-unmentioned vs h absent)
  written-unmentioned (object fs) h absent =
      let texts = date_texts fs [] in
      ap (λ (gs : Fields). object gs)
        (written_fields-unmentioned fs (dates_property texts) (ground (arith, h)) absent
          ∙ undated_fields fs texts refl (mentions_fields-more fs (dates_property texts) absent))

  written_items-unmentioned :
      (vs : Items)
      → clean_items vs ≡ true
      → mentions_items (written_items vs) ≡ false
      → written_items vs ≡ vs
  written_items-unmentioned nil h absent = refl
  written_items-unmentioned (cons v vs) h absent =
      rw
        (
          written-unmentioned v (ground (arith, h)) (ground (arith, absent)),
          not_dated v (ground (arith, h)),
          written_items-unmentioned vs (ground (arith, h)) (ground (arith, absent)),
        )
        refl

  written_fields-unmentioned :
      (fs more : Fields)
      → clean_fields fs ≡ true
      → mentions_fields (written_fields fs more) ≡ false
      → written_fields fs more ≡ texted_fields fs more
  written_fields-unmentioned end more h absent = refl
  written_fields-unmentioned (field k v fs) more h absent =
      rw
        (
          written-unmentioned v (ground (arith, h)) (ground (arith, absent)),
          written_fields-unmentioned fs more (ground (arith, h)) (ground (arith, absent)),
        )
        refl
