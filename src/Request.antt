-- ===== src/Request.antt =====
-- src/request: the requests for repositories with cloud resources.
pub mod DisplayCode
pub mod Dto
pub mod Create
pub mod Update
pub mod Query
pub mod Controller
