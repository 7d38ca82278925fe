-- ===== src/Json.antt =====
-- lib/util/json.js: the dates of a value in its JSON text. The model stands between JSON.stringify and
-- JSON.parse: it is the value as `stringify` hands it to the one, and as the reviver of `parse` makes it
-- of what the other reads. Objects are trees; class mappings are left out, and so is
-- objectRefsReviver, which changes nothing where no property is named `___objectref`. A date is kept as
-- the text of its time.
pub mod Dates
pub mod Clean
pub mod Mentions
pub mod RoundTrip
use js_code_runner.Common.{String, List}

mutual
  pub data Value : Type 0 where
    null : Value
    string_of : String → Value
    date_of : String → Value
    other : String → Value
    array : Items → Value
    object : Fields → Value

  pub data Items : Type 0 where
    nil : Items
    cons : Value → Items → Items

  pub data Fields : Type 0 where
    end : Fields
    field : String → Value → Fields → Fields
