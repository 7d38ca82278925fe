-- ===== src/ServerCode/Api/Types.antt =====
-- lib/server-code/api/index.js: one property of an API object, `name: handlerRegistrar(P.events.e)`.
use js_code_runner.Common.{String}
use js_code_runner.ServerCode.Events.Types.{Provider}

-- `registrar name P e`
pub data Registrar : Type 0 where
  registrar : String → Provider → String → Registrar
