-- ===== src/MainHandler.antt =====
-- mainhandler: what is done with a command, and the requests that are made of the scanners.
pub mod Schedules
pub mod Names
pub mod Scanner
pub mod ScanCommands
pub mod ScanRequests
pub mod Credentials
pub mod RegistryScans
pub mod Requests
pub mod Responses
pub mod Scoped
pub mod Images
