-- ===== src/App.antt =====
-- src/app: settings, device selection, the sender.
pub mod Config
pub mod DeviceCoordinator
pub mod Panel
pub mod Session
pub mod UiModel
