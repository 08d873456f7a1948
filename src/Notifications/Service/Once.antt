-- ===== src/Notifications/Service/Once.antt =====
-- One email about the messages of a contact in one inactivity session.
use desk_be.Notifications.Presence.{Presence}
