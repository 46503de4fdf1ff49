-- ===== src/Rfb/Session/KeepsInit.antt =====
-- The handshake of core/rfb.js keeps the connection legal.
use proxmox_self_service_por.Prelude.{ℕ, Option, none, some}
use proxmox_self_service_por.Rfb.Session.Handshake.{
  negotiate_protocol_version, negotiate_security, handle_security_reason, handle_security_result,
  answer_version, take_type,
}
use proxmox_self_service_por.Rfb.Session.Keeps.{Keeps, keeping}

answer_version-Keeps : (v : Option ℕ) → Keeps (answer_version v)
answer_version-Keeps none = search keeping depth 20
answer_version-Keeps (some v) = search keeping depth 20

pub negotiate_protocol_version-Keeps : Keeps negotiate_protocol_version
unfolding negotiate_protocol_version
negotiate_protocol_version-Keeps = search (keeping, answer_version-Keeps) depth 20

take_type-Keeps : (t : Option ℕ) → Keeps (take_type t)
take_type-Keeps none = search keeping depth 20
take_type-Keeps (some t) = search keeping depth 20

pub negotiate_security-Keeps : Keeps negotiate_security
unfolding negotiate_security
negotiate_security-Keeps = search (keeping, take_type-Keeps) depth 20

pub handle_security_reason-Keeps : Keeps handle_security_reason
unfolding handle_security_reason
handle_security_reason-Keeps = search keeping depth 20

pub handle_security_result-Keeps : Keeps handle_security_result
unfolding handle_security_result
handle_security_result-Keeps = search keeping depth 20
