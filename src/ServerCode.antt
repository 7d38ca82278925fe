-- ===== src/ServerCode.antt =====
-- lib/server-code: the events, the registration API and the model of an application's code.
pub mod Events
pub mod Api
pub mod Classes
pub mod Model
pub mod Descriptor
pub mod Jsdoc
pub mod Service
