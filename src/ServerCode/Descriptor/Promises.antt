-- ===== src/ServerCode/Descriptor/Promises.antt =====
-- Promises in the mapping of types.
use js_code_runner.Common.{◌≡◌, String, some, List, arith}
use js_code_runner.ServerCode.Classes.{TypeRef, named, of_elements, ClassDef}
use js_code_runner.ServerCode.Descriptor.Mapping.{unwrap_promise, type_mapping, get_type_mapping}

-- The mapping of a type is that of the type which is left when all promises around it are taken off.
pub get_type_mapping-unwrap_promise :
    (t : TypeRef) (definitions : List (String × ClassDef))
    → get_type_mapping (some t) definitions ≡ get_type_mapping (unwrap_promise t) definitions
unfolding get_type_mapping type_mapping unwrap_promise
get_type_mapping-unwrap_promise (named name) definitions = ground arith
get_type_mapping-unwrap_promise (of_elements name element) definitions =
    ground (arith, get_type_mapping-unwrap_promise element definitions)
