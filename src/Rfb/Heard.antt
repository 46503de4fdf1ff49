-- ===== src/Rfb/Heard.antt =====
-- Any messages of core/rfb.js, sent one after another: what the server hears.
use proxmox_self_service_por.Prelude.{ℕ, ◌≡◌, Option, none, some, List, [], ◌∷◌, ◌++◌, length}
use proxmox_self_service_por.Websock.State.{Websock, Outcome, done, raised}
use proxmox_self_service_por.Websock.SendLaws.{sent_bytes, IsReady}
use proxmox_self_service_por.Rfb.Messages.{Sender}
use proxmox_self_service_por.Rfb.Server.{ClientMessage, read_messages}
use proxmox_self_service_por.Rfb.Sending.{send}

abbrev pub and_send : Option (Outcome (Unit {0})) → Sender → Option (Outcome (Unit {0}))
and_send none next = none
and_send (some (raised e ws)) next = some (raised e ws)
and_send (some (done _ ws)) next = next ws

-- the calls for the messages, in order
unfoldable pub send_all : List ClientMessage → Sender
send_all [] ws = some (done tt ws)
send_all (m ∷ ms) ws = and_send (send m ws) (λ w. send_all ms w)

-- The calls return; the bytes that the channel was given since read as the messages, to the last
-- byte; nothing is left to send.
pub record Heard (ws : Websock) (ms : List ClientMessage) (run : Option (Outcome (Unit {0})))
    : Type 0 where
  pub after : Websock
  pub bytes : List ℕ
  pub returns : run ≡ some (done tt after)
  pub given : sent_bytes after.websocket ≡ sent_bytes ws.websocket ++ bytes
  pub reads : read_messages (length ms) bytes ≡ some (ms, [])
  pub empty : after.sq_len ≡ 0
  pub ready : IsReady after
