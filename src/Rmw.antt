-- ===== src/Rmw.antt =====
-- The functions of the rmw interface, src/rmw. A function returns `ok` for `RMW_RET_OK` and
-- otherwise `err` with the code; the text that it leaves in the error state of rcutils is not
-- modelled. A pointer argument that may be null is an `Option`.
pub mod Ensure
pub mod Serialize
pub mod Publish
pub mod Take
pub mod Wait
pub mod Handles
pub mod Init
pub mod Graph
pub mod Gid
pub mod Queries
pub mod Requests
pub mod Exchange
pub mod Signal
pub mod Logging
