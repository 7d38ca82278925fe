-- ===== src/ServerCode/Descriptor.antt =====
-- lib/server-code/model/service-descriptor.js: the description of the services of an application, with
-- the data types that they use. The XML text is made of it by a package, which is left out: the model
-- ends with the tree of nodes.
pub mod Mapping
pub mod Methods
pub mod Build
pub mod Grows
pub mod Missing
pub mod Closed
pub mod Enriched
pub mod Services
pub mod Routes
pub mod Promises
use js_code_runner.Common.{ℕ, String, Bool, Option, none, some, List, if◌then◌else◌, ◌==◌}
pub use js_code_runner.Common.Results.{Outcome, done, thrown, exhausted, ◌>>=◌, or_text}
use Prim.Native.String
use Prim.Native.Char.{Char, code}

-- toUpperCase, for the letters of ASCII.
abbrev upper_in : String → String → Char → Char
upper_in String.[] us c = c
upper_in (String.◌∷◌ l ls) String.[] c = c
upper_in (String.◌∷◌ l ls) (String.◌∷◌ u us) c = if code l == code c then u else upper_in ls us c

unfoldable pub to_upper_case : String → String
to_upper_case String.[] = String.[]
to_upper_case (String.◌∷◌ c s) =
    String.◌∷◌ (upper_in "abcdefghijklmnopqrstuvwxyz" "ABCDEFGHIJKLMNOPQRSTUVWXYZ" c)
      (to_upper_case s)
