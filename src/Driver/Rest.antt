-- ===== src/Driver/Rest.antt =====
-- driver/src/restful: the client of the judge board.
pub mod Pipeline
pub mod Auth
pub mod Requests
pub mod Session
