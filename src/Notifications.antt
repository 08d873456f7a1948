-- ===== src/Notifications.antt =====
-- src/modules/notifications: which notifications of a workspace reach a user, and over which
-- channel. The state is what the services keep of one user in one workspace.
pub mod Types
pub mod Presence
pub mod Rules
pub mod Service
mod Tests
