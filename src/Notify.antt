-- ===== src/Notify.antt =====
-- The notifications: contexts/notification.
pub mod Domain
pub mod Dispatcher
pub mod Deliveries
pub mod Silence
pub mod Store
