-- ===== src/Rfb/Session/Life.antt =====
-- The life of a session of core/rfb.js: what its page hears of the connection, whatever happens.
use Prim.Native.String.{String}
use proxmox_self_service_por.Prelude.{
  ℕ, zero, suc, refl, Bool, true, false, Option, none, some, List, [], ◌∷◌,
}
use proxmox_self_service_por.Websock.State as Socket
use proxmox_self_service_por.Websock.State.{
  Websock, RawChannel, Outcome, done, raised, ready_state, ReadyState, new_websock,
}
use proxmox_self_service_por.Websock.Lifecycle.{attach}
use proxmox_self_service_por.Websock.Receive.{recv_message}
use proxmox_self_service_por.Rfb.Session.State.{
  ConnectionState, unset, connecting, connected, disconnecting, disconnected, Credentials, Rfb,
  Ended, returned, thrown, endless, Method, pure,
}
use proxmox_self_service_por.Rfb.Session.Connection.{update_connection_state}
use proxmox_self_service_por.Rfb.Session.Handshake.{Parts}
use proxmox_self_service_por.Rfb.Session.Inputs.{
  Input, opened, received, closed, timeout, disconnect, resumed, flushed, send_credentials,
  normal_loop, init_loop, by_state, handle_message, if_registered, taken_in, receive, and_then,
  resume, resume_authentication, resume_due, react, run, initial, new_rfb, connected_to,
  by_ready_state,
}
use proxmox_self_service_por.Rfb.Session.Legal.{
  Legal, update-Legal, socket_open-Legal, socket_close-Legal, disconnect_now-Legal, timed_out-Legal,
}
use proxmox_self_service_por.Rfb.Session.Keeps.{
  Keeps, EndedLegal, keeping, bind-Keeps, then-Keeps, pure-Keeps, modify-Keeps, asks-Keeps,
}
use proxmox_self_service_por.Rfb.Session.KeepsStart.{PartsKeep, init_msg-Keeps}
use proxmox_self_service_por.Rfb.Session.KeepsUpdates.{normal_msg-Keeps}

-- an object, if the constructor made one
abbrev pub MadeLegal : Option Rfb → Type 0
MadeLegal none = Unit
MadeLegal (some r) = Legal r.link

-- a session, if there is an object
abbrev pub RunLegal : Option (Ended (Unit {0})) → Type 0
RunLegal none = Unit
RunLegal (some e) = EndedLegal e

module _ (parts : Parts) (keep : PartsKeep parts) where
  normal_loop-Keeps : (rounds : ℕ) → Keeps (normal_loop parts rounds)
  unfolding normal_loop
  normal_loop-Keeps zero = record { legal = λ r h. h }
  normal_loop-Keeps (suc rounds) =
      let rest = normal_loop-Keeps rounds in
      let message = normal_msg-Keeps parts keep in search keeping depth 20

  init_loop-Keeps : (rounds : ℕ) → Keeps (init_loop parts rounds)
  unfolding init_loop
  init_loop-Keeps zero = record { legal = λ r h. h }
  init_loop-Keeps (suc rounds) =
      let rest = init_loop-Keeps rounds in
      let message = init_msg-Keeps parts keep in search keeping depth 20

  by_state-Keeps : (s : ConnectionState) → Keeps (by_state parts s)
  by_state-Keeps connected = search (keeping, normal_loop-Keeps) depth 20
  by_state-Keeps connecting = search (keeping, init_loop-Keeps) depth 20
  by_state-Keeps unset = search keeping depth 20
  by_state-Keeps disconnecting = search keeping depth 20
  by_state-Keeps disconnected = search keeping depth 20

  handle_message-Keeps : Keeps (handle_message parts)
  unfolding handle_message
  handle_message-Keeps = search (keeping, by_state-Keeps) depth 20

  if_registered-Keeps :
      (evt : Socket.Event) (m : Method (Unit {0})) → Keeps m → Keeps (if_registered parts evt m)
  if_registered-Keeps evt m k = record { legal = λ r h. go r (r.sock.event_handlers evt) h }
    where
      go :
          (r : Rfb) (o : Option ℕ)
          → Legal r.link
          → EndedLegal (elim o as (λ _. Ended (Unit {0})) [ none ↦ pure tt r | some n ↦ m r ])
      go r none h = (pure-Keeps tt).legal r h
      go r (some n) h = k.legal r h

  receive-Keeps : (data₀ : List ℕ) → Keeps (receive parts data₀)
  receive-Keeps data₀ = record { legal = λ r h. go r (recv_message r.sock data₀) h }
    where
      go : (r : Rfb) (o : Outcome Bool) → Legal r.link → EndedLegal (taken_in parts r o)
      go r (raised e ws) h = h
      go r (done true ws) h =
          (if_registered-Keeps Socket.message _ handle_message-Keeps).legal (record r { sock = ws })
            h
      go r (done false ws) h = h

  resume_authentication-Keeps : Keeps (resume_authentication parts)
  unfolding resume_authentication
  resume_authentication-Keeps = modify-Keeps _

  resume_due-Keeps : (n : ℕ) → Keeps (resume_due parts n)
  resume_due-Keeps zero = pure-Keeps tt
  resume_due-Keeps (suc left) =
      bind-Keeps _ _ (then-Keeps _ _ (modify-Keeps _) (init_msg-Keeps parts keep))
        (λ _. pure-Keeps tt)

  react-Keeps : (i : Input) → Keeps (react parts i)
  react-Keeps opened =
      if_registered-Keeps Socket.opened _ (record { legal = λ r h. socket_open-Legal r h })
  react-Keeps (received data₀) = search (keeping, receive-Keeps) depth 20
  react-Keeps closed =
      if_registered-Keeps Socket.close _ (record { legal = λ r h. socket_close-Legal r h })
  react-Keeps timeout = record { legal = λ r h. timed_out-Legal r h }
  react-Keeps disconnect = record { legal = λ r h. disconnect_now-Legal r h }
  react-Keeps resume = resume_authentication-Keeps
  react-Keeps resumed = bind-Keeps _ _ (asks-Keeps _) resume_due-Keeps
  react-Keeps flushed = search (keeping, handle_message-Keeps) depth 20
  react-Keeps (send_credentials c) = then-Keeps _ _ (modify-Keeps _) resume_authentication-Keeps

  run-Keeps : (inputs : List Input) → Keeps (run parts inputs)
  unfolding run
  run-Keeps [] = record { legal = λ r h. h }
  run-Keeps (i ∷ inputs) = record {
    legal = λ r h. go (react parts i r) ((react-Keeps i).legal r h) (run-Keeps inputs);
  }
    where
      go :
          (e : Ended (Unit {0}))
          → EndedLegal e
          → Keeps (run parts inputs)
          → EndedLegal (and_then parts (run parts inputs) e)
      go (returned a r) h k = k.legal r h
      go (thrown x r) h k = k.legal r h
      go (endless r) h k = h

-- The constructor's object.
by_ready_state-MadeLegal :
    (s : ReadyState) (r : Rfb) → Legal r.link → MadeLegal (by_ready_state s r)
by_ready_state-MadeLegal Socket.closed r h = tt
by_ready_state-MadeLegal Socket.is_open r h = socket_open-Legal r h
by_ready_state-MadeLegal Socket.unused r h = h
by_ready_state-MadeLegal Socket.connecting r h = h
by_ready_state-MadeLegal Socket.closing r h = h
by_ready_state-MadeLegal Socket.unknown r h = h

connected_to-MadeLegal :
    (o : Outcome (Unit {0})) (r : Rfb) → Legal r.link → MadeLegal (connected_to o r)
connected_to-MadeLegal (raised e ws) r h = tt
connected_to-MadeLegal (done _ ws) r h =
    by_ready_state-MadeLegal (ready_state ws) (record r { sock = ws }) h

new_rfb-MadeLegal :
    (channel : RawChannel) (props : List String) (c : Credentials) (shared : Bool) (id : List ℕ)
    → MadeLegal (new_rfb channel props c shared id)
unfolding new_rfb
new_rfb-MadeLegal channel props c shared id =
    let r = update_connection_state connecting (initial c shared id) in
    connected_to-MadeLegal (attach channel props r.sock) r
      (update-Legal connecting (initial c shared id) (record { log = refl; timer = refl }))

-- what happens to an object that was made
abbrev pub begun : Parts → List Input → Option Rfb → Option (Ended (Unit {0}))
begun parts inputs none = none
begun parts inputs (some r) = some (run parts inputs r)

-- an object and what happens to it; `none` if the constructor throws
abbrev pub session :
    Parts
    → RawChannel
    → List String
    → Credentials
    → Bool
    → List ℕ
    → List Input
    → Option (Ended (Unit {0}))
session parts channel props c shared id inputs =
    begun parts inputs (new_rfb channel props c shared id)

-- Whatever channel an RFB object gets and whatever happens to it then, in any order, if the other parts
-- end a connection by `_fail` only: its page hears "connect" at most once, "disconnect" at most once,
-- and never "connect" after "disconnect"; it has heard "connect" while the object is connected, and
-- "disconnect" just when the object is disconnected; and the timeout of a disconnect is pending just
-- while the object is disconnecting. It is so however many rounds the loops are run for: also where
-- one is cut off, and then as it is at that point.
pub session-RunLegal :
    (parts : Parts) (channel : RawChannel) (props : List String) (c : Credentials) (shared : Bool)
    (id : List ℕ) (inputs : List Input)
    → PartsKeep parts
    → RunLegal (session parts channel props c shared id inputs)
session-RunLegal parts channel props c shared id inputs keep =
    go (new_rfb channel props c shared id) (new_rfb-MadeLegal channel props c shared id)
  where
    go : (o : Option Rfb) → MadeLegal o → RunLegal (begun parts inputs o)
    go none h = tt
    go (some r) h = (run-Keeps parts keep inputs).legal r h
