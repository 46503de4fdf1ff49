-- ===== src/Websock/Overflow.antt =====
-- `_recvMessage` of core/websock.js beyond the maximum, and what the object is left with.
use proxmox_self_service_por.Websock.State.{Websock, max_rq_grow_size}
use proxmox_self_service_por.Websock.Receive.{reset_if_read}

-- what is left of an object whose queue could not grow
abbrev pub exceeded : Websock → Websock
exceeded ws = record (reset_if_read ws) { rq_buffer_size = max_rq_grow_size }
