-- ===== src/Tests/Settings.antt =====
-- The theorems on the options and on the saving of items, at concrete data.
use js_code_runner.Common.{◌≡◌, refl, String, true, false, none, some, List, [], ◌∷◌, All, ◌⊎◌}
use Prim.Native.String
use Prim.Native.Char.{char}
use js_code_runner.Common.Int.{negsuc}
use js_code_runner.Common.Dict.{lookup}
use js_code_runner.Common.Results.{done}
use js_code_runner.Json.{Value, date_of, string_of, object, field as json_field, end}
use js_code_runner.Json.Dates.{stringify, parse, date_texts}
use js_code_runner.Json.Clean.{is_clean}
use js_code_runner.Json.RoundTrip.{parse-stringify}
use js_code_runner.Options.Urls.{UrlOptions, ensure_url}
use js_code_runner.Options.Limits.{ensure_rate_limit}
use js_code_runner.Options.Laws.{Addressed, ensure_url-Addressed}
use js_code_runner.Options.Overrides.{
  Override, Writable, write_overrides, last_limit, ensure_rate_limit-write_overrides,
}
use js_code_runner.Persistence.{
  Plain, content, plain, item, Fields, no_fields, field, trim_relations,
}
use js_code_runner.Persistence.Paths.{has_path, child_path, has_path-child_path}
use js_code_runner.Persistence.Save.{needs_save, has_custom_props}
use js_code_runner.Persistence.Needs.{MustSave}
use js_code_runner.Persistence.Relations.{save_with_relations, process_fields}
use js_code_runner.Persistence.Laws.{saves_of, own_properties, save_with_relations-all_stale}

abbrev by_host : UrlOptions
by_host = record {
  url = none;
  protocol = some "wss";
  host = some "api.local";
  port = some "9000";
  uri = some "/api";
}

ensure_url-Addressed_example : Addressed "no address" by_host (ensure_url "no address" by_host)
ensure_url-Addressed_example = ensure_url-Addressed "no address" by_host

abbrev limit_of_a : Override
limit_of_a = record { app = "A"; minus = false; first = char 53 tt; digits = "" }

abbrev limit_of_b : Override
limit_of_b = record { app = "B"; minus = true; first = char 49 tt; digits = "2" }

limits_written : write_overrides (limit_of_a ∷ limit_of_b ∷ []) ≡ "A:5;B:-12"
limits_written = refl

written-Writable : All Writable (limit_of_a ∷ limit_of_b ∷ [])
written-Writable = ((refl, refl, refl, refl), ((refl, refl, refl, refl), tt))

ensure_rate_limit-write_overrides_example :
    lookup "B"
      (ensure_rate_limit true
        (some 3)
        (some (write_overrides (limit_of_a ∷ limit_of_b ∷ [])))).overrides
    ≡ last_limit "B" (limit_of_a ∷ limit_of_b ∷ [])
ensure_rate_limit-write_overrides_example =
    ensure_rate_limit-write_overrides true (some 3) limit_of_a (limit_of_b ∷ []) "B"
      written-Writable

last_limit_b : last_limit "B" (limit_of_a ∷ limit_of_b ∷ []) ≡ some (some (negsuc 11))
unfolding last_limit
last_limit_b = refl

abbrev paths : List String
paths = "items" ∷ "items.order" ∷ []

has_path-child_path_example :
    has_path "order" (child_path "items" paths)
    ≡ has_path (String.◌++◌ (String.◌++◌ "items" ".") "order") paths
has_path-child_path_example = has_path-child_path "items" "order" paths

abbrev person : Fields
person = field "objectId" (plain (content "1")) (
    field "name" (plain (content "Ann"))
      (field "friend" (item "Person" (field "name" (plain (content "Bob")) no_fields)) no_fields))

abbrev echo : String → List (String × Plain) → List (String × Plain)
echo c payload = payload

save_with_relations-all_stale_example :
    (MustSave (own_properties person)
      × (saves_of (save_with_relations echo "Person" person ("friend" ∷ []) []).0
          ≡ ("Person", own_properties person) ∷ []))
    ⊎ ((¬ MustSave (own_properties person))
        × (saves_of (save_with_relations echo "Person" person ("friend" ∷ []) []).0 ≡ []))
save_with_relations-all_stale_example =
    save_with_relations-all_stale echo "Person" person ("friend" ∷ []) [] refl

person_saved :
    saves_of (save_with_relations echo "Person" person ("friend" ∷ []) []).0
    ≡ ("Person", ("objectId", content "1") ∷ ("name", content "Ann") ∷ []) ∷ []
unfolding save_with_relations saves_of process_fields needs_save trim_relations has_custom_props
    lookup
person_saved = refl

-- A meeting with two dates and a guest.
abbrev meeting : Value
meeting = object (
    json_field "at" (date_of "5") (
      json_field "until" (date_of "7") (
        json_field "guest" (object (json_field "born" (date_of "1") end))
          (json_field "title" (string_of "talk") end))))

meeting_clean : is_clean meeting ≡ true
unfolding is_clean date_texts
meeting_clean = refl

parse-stringify_example : parse (stringify (λ t. t) meeting) ≡ done meeting
parse-stringify_example = parse-stringify (λ t. t) meeting refl meeting_clean
