-- ===== src/Alerting.antt =====
-- internal/alerting: deduplicated delivery of recommendations to a webhook.
pub mod Payload
pub mod Url
pub mod Sender
pub mod Delivery
