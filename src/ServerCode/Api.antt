-- ===== src/ServerCode/Api.antt =====
-- lib/server-code/api/index.js: the objects of registration functions, handlerRegistrar and addHandler.
-- A target is a text.
pub mod Types
pub mod Data
pub mod Users
pub mod Messages
pub mod Counters
pub mod Laws
use js_code_runner.Common.{ℕ, String, Bool, Option, none, some, List, [], ◌∷◌, ◌++◌}
use js_code_runner.ServerCode.Events.Types.{EventType, id}
use js_code_runner.ServerCode.Model.{Result, err, Handler, FilePath, ServerCodeModel, add_handler}
use Types.{Registrar}
use Data.{data_api}
use Users.{user_api, geo_api}
use Messages.{messaging_api, file_api}
use Counters.{cache_api, atomic_operation_api}

-- Every registration function but those of ServerCode.Media.
abbrev pub apis : List Registrar
apis =
    data_api
    ++ (user_api
        ++ (geo_api ++ (messaging_api ++ (file_api ++ (cache_api ++ atomic_operation_api)))))

-- The arguments of a registration function, `(target, handler, async)` or `(handler, async)`. The
-- handler is a name for the function.
pub data Arguments : Type 0 where
  for_target : String → ℕ → Bool → Arguments
  for_all : ℕ → Bool → Arguments

abbrev pub target_of : Arguments → String
target_of (for_target t h a) = t
target_of (for_all h a) = "*"

-- The object that addHandler makes, for the file that is loaded.
abbrev pub registration : FilePath → ℕ → Arguments → Handler
registration file i (for_target t h a) = record {
  event_id = i;
  target = t;
  async = a;
  invoke = h;
  provider_file = file.relative_path;
}
registration file i (for_all h a) = record {
  event_id = i;
  target = "*";
  async = a;
  invoke = h;
  provider_file = file.relative_path;
}

-- addHandler: `file` is the current context and `model` is contextModel. Without them it throws.
unfoldable pub add_in_context :
    Option FilePath → Option ServerCodeModel → ℕ → Arguments → Result ServerCodeModel
add_in_context none model i call =
    err "Cannot read properties of undefined (reading 'relativePath')"
add_in_context (some file) none i call = err "Cannot read properties of null (reading 'addHandler')"
add_in_context (some file) (some model) i call = add_handler (registration file i call) model

-- A call of the function that handlerRegistrar returns. `event.deprecatedMsg` throws on `undefined`,
-- which is `none`.
unfoldable pub handler_registrar :
    Option EventType → Arguments → Option FilePath → Option ServerCodeModel → Result ServerCodeModel
handler_registrar none call file model =
    err "Cannot read properties of undefined (reading 'deprecatedMsg')"
handler_registrar (some e) call file model = add_in_context file model (id e) call
