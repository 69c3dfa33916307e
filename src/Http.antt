-- ===== src/Http.antt =====
-- app/src/domain/http_domain: the configuration endpoint, the server and the access point.
pub mod Collaborators
pub mod SensorsApi
pub mod Server
pub mod AccessPoint
pub mod Requests
pub mod Resources
pub mod Tests
