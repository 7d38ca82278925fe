-- ===== src/Json/RoundTrip.antt =====
-- A value with dates is read back from what is written for it.
use js_code_runner.Common.{
  ◌≡◌, refl, sym, subst, ap, String, true, false, Option, none, some, List, [], ◌∷◌, arith,
  Bool-cases, inl, inr, ◌∙◌,
}
use js_code_runner.Common.Results.{Outcome, done, thrown, exhausted, ◌>>=◌}
use text.Mathlib.Text.{◌==◌}
use js_code_runner.Json.{
  Value, null, string_of, date_of, other, array, object, Items, nil, cons, Fields, end, field,
}
use js_code_runner.Json.Dates.{
  dates_field, date_texts, text_items, dates_property, written, written_items, written_fields,
  stringify, item_texts, revived_object, revive, revive_items, revive_fields, mentions, parse,
}
use js_code_runner.Json.Mentions.{written-unmentioned}
use js_code_runner.Json.Clean.{
  is_date, plain_fields, is_clean, clean_items, clean_fields, texted, texted_fields, all_listed,
  with_dates-texted, has_dates-texted, all_listed-date_texts, not_dated, texted-undated,
  named_otherwise, has_dates-undated, has_own-texted,
}

abbrev Revives : Value → Option (List String) → Type 0
Revives v dates = (d : Option (List String)) × (revive (written v) dates ≡ done (texted v, d))

item_texts-text_items : (ts : List String) → item_texts (text_items ts) ≡ ts
item_texts-text_items [] = refl
item_texts-text_items (t ∷ ts) = ap (λ (l : List String). t ∷ l) (item_texts-text_items ts)

revive_items-text_items :
    (ts : List String) (d : Option (List String))
    → revive_items (text_items ts) d ≡ done (text_items ts, d)
unfolding revive
revive_items-text_items [] d = refl
revive_items-text_items (t ∷ ts) d = rw (revive_items-text_items ts d) refl

bind-done {ℓ} : {A : Type ℓ} (m : Outcome A) → (m >>= λ a. done a) ≡ m
bind-done (done a) = refl
bind-done (thrown e) = refl
bind-done exhausted = refl

bind_assoc {ℓ} :
    {A B C : Type ℓ} (m : Outcome A) (f : A → Outcome B) (g : B → Outcome C)
    → ((m >>= f) >>= g) ≡ (m >>= λ a. f a >>= g)
bind_assoc (done a) f g = refl
bind_assoc (thrown e) f g = refl
bind_assoc exhausted f g = refl

abbrev RevivesItems : Items → Option (List String) → Type 0
RevivesItems vs dates =
    (d : Option (List String)) × (revive_items (written_items vs) dates ≡ done (vs, d))

abbrev RevivesFields : Fields → Fields → Option (List String) → Type 0
RevivesFields fs more dates =
    (d : Option (List String)) × (revive_fields (written_fields fs more) dates
      ≡ (revive_fields more d >>= λ rest. done (texted_fields fs rest.0, rest.1)))

revive_fields-dates_property :
    (t : String) (ts : List String) (d : Option (List String))
    → revive_fields (dates_property (t ∷ ts)) d ≡ done (field dates_field null end, some (t ∷ ts))
unfolding revive
revive_fields-dates_property t ts d =
    rw (revive_items-text_items ts d, item_texts-text_items ts) refl

-- The object behind its properties.
revived-object :
    (fs : Fields) (ts : List String) (dates : Option (List String))
    → date_texts fs [] ≡ ts
    → plain_fields (date_texts fs []) fs ≡ true
    → RevivesFields fs (dates_property ts) dates
    → (d : Option (List String)) × ((revive_fields (written_fields fs (dates_property ts)) dates
          >>= revived_object)
        ≡ done (object fs, d))
unfolding revive
revived-object fs [] dates e p (d, made) =
    let all : all_listed [] fs ≡ true =
      subst (λ (l : List String). all_listed l fs ≡ true) e
        (all_listed-date_texts fs fs [] (λ t h. h)) in
    (
      d,
      rw (made, texted-undated fs all)
          (ground
            (arith, has_dates-undated _ fs p, has_own-texted _ fs end p, texted-undated fs all)),
    )
revived-object fs (t ∷ ts) dates e p (d, made) =
    let plain : plain_fields (t ∷ ts) fs ≡ true =
      subst (λ (l : List String). plain_fields l fs ≡ true) e p in
    let all : all_listed (t ∷ ts) fs ≡ true =
      subst (λ (l : List String). all_listed l fs ≡ true) e
        (all_listed-date_texts fs fs [] (λ u h. h)) in
    (
      none,
      rw (made, revive_fields-dates_property t ts d)
          (rw
            (
              has_own-texted (t ∷ ts) fs (field dates_field null end) plain,
              has_dates-texted fs,
              with_dates-texted (t ∷ ts) fs plain all,
            )
            refl),
    )

-- What is written is read back, by parts.
mutual
  unfolding revive written is_clean

  revive-written : (v : Value) (dates : Option (List String)) → is_clean v ≡ true → Revives v dates
  revive-written null dates h = (dates, refl)
  revive-written (string_of s) dates h = (dates, refl)
  revive-written (date_of t) dates h = (dates, refl)
  revive-written (other o) dates h = (dates, refl)
  revive-written (array vs) dates h =
      let (d, made) = revive_items-written vs dates h in (d, rw made refl)
  revive-written (object fs) dates h =
      let plain : plain_fields (date_texts fs []) fs ≡ true = ground (arith, h) in
      let clean : clean_fields fs ≡ true = ground (arith, h) in
      revived-object fs (date_texts fs []) dates refl plain (
        revive_fields-written fs (dates_property (date_texts fs [])) (date_texts fs []) dates plain
          clean)

  revive_items-written :
      (vs : Items) (dates : Option (List String)) → clean_items vs ≡ true → RevivesItems vs dates
  revive_items-written nil dates h = (dates, refl)
  revive_items-written (cons v vs) dates h =
      let (d, made) = revive-written v dates (ground (arith, h)) in
      let (d', rest) = revive_items-written vs d (ground (arith, h)) in
      (d', rw (made, rest, not_dated v (ground (arith, h))) refl)

  revive_fields-written :
      (fs more : Fields) (texts : List String) (dates : Option (List String))
      → plain_fields texts fs ≡ true
      → clean_fields fs ≡ true
      → RevivesFields fs more dates
  revive_fields-written end more texts dates p h =
      (dates, sym (bind-done (revive_fields more dates)))
  revive_fields-written (field k v fs) more texts dates p h =
      let (d, made) = revive-written v dates (ground (arith, h)) in
      let (d', rest) =
        revive_fields-written fs more texts d (ground (arith, p)) (ground (arith, h)) in
      let named : (k == dates_field) ≡ false = (named_otherwise texts k v (ground (arith, p))).0 in
      (d', rw (made, named, rest) (bind_assoc (revive_fields more d') _ _))

stringify-written :
    (to_json : String → String) (v : Value) → is_date v ≡ false → stringify to_json v ≡ written v
unfolding stringify written
stringify-written to_json null h = refl
stringify-written to_json (string_of s) h = refl
stringify-written to_json (date_of t) h = cc
stringify-written to_json (other o) h = refl
stringify-written to_json (array vs) h = refl
stringify-written to_json (object fs) h = refl

-- A value is what `parse` makes of what `stringify` hands on for it, dates included, if it is clean and
-- not a date itself: if in every object no property is named `___dates___`, `___objectref` or
-- `hasOwnProperty` and no text is the time of a date beside it, and no array holds a date itself. No
-- class is mapped, and no object stands in two places.
pub parse-stringify :
    (to_json : String → String) (v : Value)
    → is_date v ≡ false
    → is_clean v ≡ true
    → parse (stringify to_json v) ≡ done v
unfolding parse stringify
parse-stringify to_json v plain clean =
    let (d, made) = revive-written v none clean in
    let as_it_is = not_dated v plain in
    rw (stringify-written to_json v plain) (elim (Bool-cases (mentions (written v))) [
      | inl there ↦ rw (there, made) (ap (λ (w : Value). done w) as_it_is)
      | inr absent ↦
          rw absent (ap (λ (w : Value). done w) (written-unmentioned v clean absent ∙ as_it_is))
    ])

-- A date in an array is not read back: it stays a text.
pub parse-date_in_array :
    (to_json : String → String) (t : String)
    → parse (stringify to_json (array (cons (date_of t) nil)))
      ≡ done (array (cons (string_of t) nil))
unfolding parse stringify written revive mentions
parse-date_in_array to_json t = ground arith
