-- ===== src/ServerCode/Jsdoc.antt =====
-- lib/util/jsdoc.js: the classes that the documentation comments of a file describe. The parser of the
-- comments is a package, so its documents are the argument; what JSON.parse makes of the text of a
-- `@paramDef` tag is an argument too.
pub mod Types
pub mod Params
pub mod Docs
pub mod Laws
pub mod RoundTrip
