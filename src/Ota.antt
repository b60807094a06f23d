-- ===== src/Ota.antt =====
-- sherry's OTA service: keys, the Redis helpers, the HTTP handlers, devices and their notifiers.
pub mod Keys
pub mod Http
pub mod Redis
pub mod Notifier
pub mod HttpManager
pub mod Query
pub mod Download
pub mod Device
pub mod Callbacks
pub mod Manager
pub mod Consumer
pub mod Routes
mod Tests
