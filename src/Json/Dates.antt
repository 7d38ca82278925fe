-- ===== src/Json/Dates.antt =====
-- lib/util/json.js, the replacer of `stringify` and datesTransformReviver of `parse`: the dates among the
-- properties of an object are written as texts, and `___dates___` lists them. A property that has this
-- name in the value itself is left out.
use js_code_runner.Common.{
  String, Bool, true, false, Option, none, some, List, [], ◌∷◌, ◌++◌, if◌then◌else◌, ◌==◌ as nat_eq,
}
use js_code_runner.Common.Results.{Outcome, done, thrown, ◌>>=◌}
use text.Mathlib.Text.{◌==◌}
use Prim.Native.Char.{code}
use js_code_runner.Json.{
  Value, null, string_of, date_of, other, array, object, Items, nil, cons, Fields, end, field,
}

abbrev pub dates_field : String
dates_field = "___dates___"

-- `indexOf(t) !== -1`
abbrev pub listed : String → List String → Bool
listed t [] = false
listed t (x ∷ xs) = if x == t then true else listed t xs

-- The texts of the dates of an object, each once, in the order of its properties.
unfoldable pub date_texts : Fields → List String → List String
date_texts end texts = texts
date_texts (field k (date_of t) fs) texts =
    date_texts fs (if listed t texts then texts else texts ++ t ∷ [])
date_texts (field k null fs) texts = date_texts fs texts
date_texts (field k (string_of s) fs) texts = date_texts fs texts
date_texts (field k (other o) fs) texts = date_texts fs texts
date_texts (field k (array vs) fs) texts = date_texts fs texts
date_texts (field k (object gs) fs) texts = date_texts fs texts

abbrev pub text_items : List String → Items
text_items [] = nil
text_items (t ∷ ts) = cons (string_of t) (text_items ts)

-- The property that is added where there are dates.
abbrev pub dates_property : List String → Fields
dates_property [] = end
dates_property (t ∷ ts) = field dates_field (array (text_items (t ∷ ts))) end

-- The value as it is written. The dates of an array are replaced as well, but a property of an array is
-- not written.
unfoldable mutual
  pub written : Value → Value
  written null = null
  written (string_of s) = string_of s
  written (date_of t) = string_of t
  written (other o) = other o
  written (array vs) = array (written_items vs)
  written (object fs) = object (written_fields fs (dates_property (date_texts fs [])))

  pub written_items : Items → Items
  written_items nil = nil
  written_items (cons v vs) = cons (written v) (written_items vs)

  -- The properties, with those that come behind them.
  pub written_fields : Fields → Fields → Fields
  written_fields end more = more
  written_fields (field k v fs) more = field k (written v) (written_fields fs more)

-- `stringify`: a value that is a date itself is written by its own toJSON.
unfoldable pub stringify : (String → String) → Value → Value
stringify to_json (date_of t) = string_of (to_json t)
stringify to_json null = null
stringify to_json (string_of s) = string_of s
stringify to_json (other o) = other o
stringify to_json (array vs) = written (array vs)
stringify to_json (object fs) = written (object fs)

abbrev pub item_texts : Items → List String
item_texts nil = []
item_texts (cons (string_of s) vs) = s ∷ item_texts vs
item_texts (cons _ vs) = item_texts vs

-- What `dates` is after `___dates___` is met: a list, if it is an array.
abbrev pub texts_of : Value → Option (List String)
texts_of (array vs) = some (item_texts vs)
texts_of _ = none

abbrev pub has_dates : Fields → Bool
has_dates end = false
has_dates (field k v fs) = if k == dates_field then true else has_dates fs

abbrev pub dated : List String → Value → Value
dated texts (string_of s) = if listed s texts then date_of s else string_of s
dated texts v = v

-- The dates are made, and `___dates___` is deleted.
unfoldable pub with_dates : List String → Fields → Fields
with_dates texts end = end
with_dates texts (field k v fs) =
    let rest = with_dates texts fs in
    if k == dates_field then rest else field k (dated texts v) rest

-- A property that hides the method `hasOwnProperty` of an object.
abbrev pub has_own : Fields → Bool
has_own end = false
has_own (field k v fs) = if k == "hasOwnProperty" then true else has_own fs

abbrev pub revived_object : Fields × Option (List String) → Outcome (Value × Option (List String))
revived_object (fs, dates) =
    if has_own fs
    then thrown "value.hasOwnProperty is not a function"
    else if has_dates fs
    then elim dates [
      | none ↦ thrown "Cannot read properties of undefined (reading 'indexOf')"
      | some texts ↦ done (object (with_dates texts fs), none)
    ]
    else done (object fs, dates)

-- A property named `___dates___` sets the variable, and becomes null.
abbrev pub met : String → Value × Option (List String) → Value × Option (List String)
met k (v, dates) =
    let listing : Value × Option (List String) = (null, texts_of v) in
    if k == dates_field then listing else (v, dates)

-- The reviver, which visits the properties first, with the variable `dates` from call to call.
unfoldable mutual
  pub revive : Value → Option (List String) → Outcome (Value × Option (List String))
  revive null dates = done (null, dates)
  revive (string_of s) dates = done (string_of s, dates)
  revive (date_of t) dates = done (date_of t, dates)
  revive (other o) dates = done (other o, dates)
  revive (array vs) dates = do r ← revive_items vs dates; done (array r.0, r.1)
  revive (object fs) dates = do r ← revive_fields fs dates; revived_object r

  pub revive_items : Items → Option (List String) → Outcome (Items × Option (List String))
  revive_items nil dates = done (nil, dates)
  revive_items (cons v vs) dates = do
    r ← revive v dates
    rest ← revive_items vs r.1
    done (cons r.0 rest.0, rest.1)

  pub revive_fields : Fields → Option (List String) → Outcome (Fields × Option (List String))
  revive_fields end dates = done (end, dates)
  revive_fields (field k v fs) dates = do
    r ← revive v dates
    let next = met k r
    rest ← revive_fields fs next.1
    done (field k next.0 rest.0, rest.1)

abbrev pub starts_at : String → String → Bool
starts_at text String.[] = true
starts_at String.[] (String.◌∷◌ d prefix) = false
starts_at (String.◌∷◌ c text) (String.◌∷◌ d prefix) =
    if nat_eq (code c) (code d) then starts_at text prefix else false

-- `text.includes(part)`
abbrev pub includes_text : String → String → Bool
includes_text String.[] part = starts_at String.[] part
includes_text (String.◌∷◌ c text) part =
    if starts_at (String.◌∷◌ c text) part then true else includes_text text part

-- Whether the JSON text of a value includes `___dates___`: in a text or in the name of a property.
unfoldable mutual
  pub mentions : Value → Bool
  mentions null = false
  mentions (string_of s) = includes_text s dates_field
  mentions (date_of t) = includes_text t dates_field
  mentions (other o) = false
  mentions (array vs) = mentions_items vs
  mentions (object fs) = mentions_fields fs

  pub mentions_items : Items → Bool
  mentions_items nil = false
  mentions_items (cons v vs) = if mentions v then true else mentions_items vs

  pub mentions_fields : Fields → Bool
  mentions_fields end = false
  mentions_fields (field k v fs) =
      if includes_text k dates_field then true else if mentions v then true else mentions_fields fs

-- `parse`, from the value that JSON.parse reads: datesTransformReviver is called only for a text that
-- includes `___dates___`. objectRefsReviver is left out.
unfoldable pub parse : Value → Outcome Value
parse v = if mentions v then (do r ← revive v none; done r.0) else done v
