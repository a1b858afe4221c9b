-- ===== src/Relay.antt =====
-- The Alexa relay, integrations/alexa-relay/src.
pub mod Errors
pub mod State
pub mod Signature
pub mod Snapshot
pub mod Ingest
pub mod Push
pub mod Skill
pub mod Server
pub mod Client
