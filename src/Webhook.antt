-- ===== src/Webhook.antt =====
-- The notification of the API: internal/webhook/webhook.go.
pub mod Payload
pub mod Net
pub mod Notify
pub mod Attempts
