-- ===== src/Rtr.antt =====
-- backend/internal/rtr: the RPKI-to-Router client. Rtr/Codec is pdu.go and codec.go, Rtr/Session is
-- one session of client.go, Rtr/Run its reconnections.
pub mod Codec
pub mod Session
pub mod Run
