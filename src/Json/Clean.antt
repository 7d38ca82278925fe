-- ===== src/Json/Clean.antt =====
-- The values whose dates are told apart from their texts, and what becomes of the properties of an object
-- on the way.
use js_code_runner.Common.{
  ◌≡◌, refl, ap, String, Bool, true, false, not, List, [], ◌∷◌, ◌++◌, if◌then◌else◌, arith, eq_iff,
}
use text.Mathlib.Text.{◌==◌}
use js_code_runner.Json.{
  Value, null, string_of, date_of, other, array, object, Items, nil, cons, Fields, end, field,
}
use js_code_runner.Json.Dates.{
  dates_field, listed, date_texts, has_dates, has_own, dated, with_dates,
}

abbrev pub is_date : Value → Bool
is_date (date_of t) = true
is_date null = false
is_date (string_of s) = false
is_date (other o) = false
is_date (array vs) = false
is_date (object fs) = false

-- The names that mean something to `parse`.
abbrev pub is_reserved : String → Bool
is_reserved k =
    if k == dates_field then true else if k == "___objectref" then true else k == "hasOwnProperty"

-- No property is a text that is the time of a date of the list, and none has a reserved name.
abbrev pub plain_field : List String → String → Value → Bool
plain_field texts k (string_of s) = if is_reserved k then false else not (listed s texts)
plain_field texts k v = not (is_reserved k)

abbrev pub plain_fields : List String → Fields → Bool
plain_fields texts end = true
plain_fields texts (field k v fs) = if plain_field texts k v then plain_fields texts fs else false

-- In every object no property has a reserved name, and no text is the time of a date beside it; no
-- array holds a date itself.
unfoldable mutual
  pub is_clean : Value → Bool
  is_clean null = true
  is_clean (string_of s) = true
  is_clean (date_of t) = true
  is_clean (other o) = true
  is_clean (array vs) = clean_items vs
  is_clean (object fs) = if plain_fields (date_texts fs []) fs then clean_fields fs else false

  pub clean_items : Items → Bool
  clean_items nil = true
  clean_items (cons v vs) =
      if is_date v then false else if is_clean v then clean_items vs else false

  pub clean_fields : Fields → Bool
  clean_fields end = true
  clean_fields (field k v fs) = if is_clean v then clean_fields fs else false

-- A value as the reviver leaves it, before its parent makes the dates.
abbrev pub texted : Value → Value
texted (date_of t) = string_of t
texted v = v

abbrev pub texted_fields : Fields → Fields → Fields
texted_fields end more = more
texted_fields (field k v fs) more = field k (texted v) (texted_fields fs more)

pub listed-snoc :
    (t u : String) (texts : List String)
    → listed t (texts ++ u ∷ []) ≡ (if listed t texts then true else u == t)
listed-snoc t u [] = ground arith
listed-snoc t u (x ∷ xs) = ground (arith, listed-snoc t u xs)

abbrev pub date_listed : List String → Value → Bool
date_listed texts (date_of t) = listed t texts
date_listed texts v = true

abbrev pub all_listed : List String → Fields → Bool
all_listed texts end = true
all_listed texts (field k v fs) = if date_listed texts v then all_listed texts fs else false

pub plain_dated :
    (texts : List String) (k : String) (v : Value)
    → plain_field texts k v ≡ true
    → date_listed texts v ≡ true
    → ((k == dates_field) ≡ false) × (dated texts (texted v) ≡ v)
plain_dated texts k null p l = (ground (arith, p), refl)
plain_dated texts k (string_of s) p l = (ground (arith, p), ground (arith, p))
plain_dated texts k (date_of t) p l = (ground (arith, p), ground (arith, l))
plain_dated texts k (other o) p l = (ground (arith, p), refl)
plain_dated texts k (array vs) p l = (ground (arith, p), refl)
plain_dated texts k (object fs) p l = (ground (arith, p), refl)

pub with_dates-texted :
    (texts : List String) (fs : Fields)
    → plain_fields texts fs ≡ true
    → all_listed texts fs ≡ true
    → with_dates texts (texted_fields fs (field dates_field null end)) ≡ fs
unfolding with_dates
with_dates-texted texts end p l = refl
with_dates-texted texts (field k v fs) p l =
    let (named, made) = plain_dated texts k v (ground (arith, p)) (ground (arith, l)) in
    rw (named, made)
      (ap (λ (rest : Fields). field k v rest)
        (with_dates-texted texts fs (ground (arith, p)) (ground (arith, l))))

pub has_dates-texted :
    (fs : Fields) → has_dates (texted_fields fs (field dates_field null end)) ≡ true
has_dates-texted end = refl
has_dates-texted (field k v fs) = ground (arith, has_dates-texted fs)

pub listed-later :
    (t : String) (fs : Fields) (texts : List String)
    → listed t texts ≡ true
    → listed t (date_texts fs texts) ≡ true
unfolding date_texts
listed-later t end texts h = h
listed-later t (field k null fs) texts h = listed-later t fs texts h
listed-later t (field k (string_of s) fs) texts h = listed-later t fs texts h
listed-later t (field k (other o) fs) texts h = listed-later t fs texts h
listed-later t (field k (array vs) fs) texts h = listed-later t fs texts h
listed-later t (field k (object gs) fs) texts h = listed-later t fs texts h
listed-later t (field k (date_of u) fs) texts h =
    listed-later t fs _ (ground (arith, h, listed-snoc t u texts))

pub all_listed-date_texts :
    (fs gs : Fields) (texts : List String)
    → ((t : String) → listed t (date_texts fs texts) ≡ true → listed t (date_texts gs []) ≡ true)
    → all_listed (date_texts gs []) fs ≡ true
unfolding date_texts
all_listed-date_texts end gs texts h = refl
all_listed-date_texts (field k null fs) gs texts h = all_listed-date_texts fs gs texts h
all_listed-date_texts (field k (string_of s) fs) gs texts h = all_listed-date_texts fs gs texts h
all_listed-date_texts (field k (other o) fs) gs texts h = all_listed-date_texts fs gs texts h
all_listed-date_texts (field k (array vs) fs) gs texts h = all_listed-date_texts fs gs texts h
all_listed-date_texts (field k (object gs') fs) gs texts h = all_listed-date_texts fs gs texts h
all_listed-date_texts (field k (date_of t) fs) gs texts h =
    let now : listed t (if listed t texts then texts else texts ++ t ∷ []) ≡ true =
      ground (arith, listed-snoc t t texts, eq_iff t t) in
    ground (
      arith,
      h t (listed-later t fs _ now),
      all_listed-date_texts fs gs (if listed t texts then texts else texts ++ t ∷ []) h,
    )

pub undated : (v : Value) → date_listed [] v ≡ true → texted v ≡ v
undated null l = refl
undated (string_of s) l = refl
undated (date_of t) l = cc
undated (other o) l = refl
undated (array vs) l = refl
undated (object fs) l = refl

pub not_dated : (v : Value) → is_date v ≡ false → texted v ≡ v
not_dated null l = refl
not_dated (string_of s) l = refl
not_dated (date_of t) l = cc
not_dated (other o) l = refl
not_dated (array vs) l = refl
not_dated (object fs) l = refl

-- Without dates the properties are left as they are.
pub texted-undated : (fs : Fields) → all_listed [] fs ≡ true → texted_fields fs end ≡ fs
texted-undated end l = refl
texted-undated (field k v fs) l =
    rw (undated v (ground (arith, l)))
      (ap (λ (rest : Fields). field k v rest) (texted-undated fs (ground (arith, l))))

pub named_otherwise :
    (texts : List String) (k : String) (v : Value)
    → plain_field texts k v ≡ true
    → ((k == dates_field) ≡ false) × ((k == "hasOwnProperty") ≡ false)
named_otherwise texts k null p = (ground (arith, p), ground (arith, p))
named_otherwise texts k (string_of s) p = (ground (arith, p), ground (arith, p))
named_otherwise texts k (date_of t) p = (ground (arith, p), ground (arith, p))
named_otherwise texts k (other o) p = (ground (arith, p), ground (arith, p))
named_otherwise texts k (array vs) p = (ground (arith, p), ground (arith, p))
named_otherwise texts k (object fs) p = (ground (arith, p), ground (arith, p))

pub has_dates-undated :
    (texts : List String) (fs : Fields)
    → plain_fields texts fs ≡ true
    → has_dates (texted_fields fs end) ≡ false
has_dates-undated texts end p = refl
has_dates-undated texts (field k v fs) p = ground (
  arith,
  named_otherwise texts k v (ground (arith, p)),
  has_dates-undated texts fs (ground (arith, p)),
)

pub has_own-texted :
    (texts : List String) (fs more : Fields)
    → plain_fields texts fs ≡ true
    → has_own (texted_fields fs more) ≡ has_own more
has_own-texted texts end more p = refl
has_own-texted texts (field k v fs) more p = ground (
  arith,
  named_otherwise texts k v (ground (arith, p)),
  has_own-texted texts fs more (ground (arith, p)),
)
