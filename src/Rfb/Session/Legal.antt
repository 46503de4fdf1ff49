-- ===== src/Rfb/Session/Legal.antt =====
-- The events of core/rfb.js that tell of the connection, as they may be heard, and that every change of
-- the connection's state keeps to it.
use proxmox_self_service_por.Prelude.{
  ◌≡◌, refl, Bool, true, false, ◌&&◌, Option, none, some, List, [], ◌∷◌, arith, if◌then◌else◌,
  Bool-cases, inl, inr,
}
use proxmox_self_service_por.Rfb.Session.State.{
  ConnectionState, unset, connecting, connected, disconnecting, disconnected, Event, connect,
  disconnect, Link, Rfb,
}
use proxmox_self_service_por.Rfb.Session.Connection.{
  same_state, accepts, changed, update_connection_state, fail, is_not_open, close_from, socket_open,
  socket_close, disconnect_now, timed_out,
}

-- What a listener knows: nothing yet, that the client is connected, that it is disconnected.
pub data Phase : Type 0 where
  waiting up down : Phase

-- "connect" comes first if it comes, "disconnect" once; the other events may come at any time.
abbrev pub heard_connect : Option Phase → Option Phase
heard_connect (some waiting) = some up
heard_connect _ = none

abbrev pub heard_disconnect : Option Phase → Option Phase
heard_disconnect (some waiting) = some down
heard_disconnect (some up) = some down
heard_disconnect _ = none

abbrev pub heard : List Event → Option Phase
heard [] = some waiting
heard (connect ∷ events) = heard_connect (heard events)
heard (disconnect clean ∷ events) = heard_disconnect (heard events)
heard (_ ∷ events) = heard events

-- what a listener knows in each state
abbrev pub fits : ConnectionState → Option Phase → Bool
fits unset (some waiting) = true
fits connecting (some waiting) = true
fits connected (some up) = true
fits disconnecting (some waiting) = true
fits disconnecting (some up) = true
fits disconnected (some down) = true
fits _ _ = false

-- The events so far fit the state, and a timeout is pending just while disconnecting.
pub record Legal (l : Link) : Type 0 where
  pub log : fits l.connection_state (heard l.events) ≡ true
  pub timer : l.disconn_timer ≡ same_state l.connection_state disconnecting

changed-log :
    (state old : ConnectionState) (p : Option Phase)
    → accepts state old ≡ true
    → fits old p ≡ true
    → fits state (elim state as (λ _. Option Phase) [
      | connected ↦ heard_connect p
      | disconnected ↦ heard_disconnect p
      | _ ↦ p
    ])
      ≡ true
changed-log state old p a f = ground arith

cleared : (b : Bool) → (if b && true then false else b) ≡ false
cleared true = refl
cleared false = refl

kept : (b : Bool) → (if b && false then false else b) ≡ b
kept true = refl
kept false = refl

changed-Legal :
    (state : ConnectionState) (l : Link)
    → accepts state l.connection_state ≡ true
    → Legal l
    → Legal (changed state l)
changed-Legal unset l a h = record {
  log = changed-log unset l.connection_state (heard l.events) a h.log;
  timer = cleared l.disconn_timer;
}
changed-Legal connecting l a h = record {
  log = changed-log connecting l.connection_state (heard l.events) a h.log;
  timer = cleared l.disconn_timer;
}
changed-Legal connected l a h = record {
  log = changed-log connected l.connection_state (heard l.events) a h.log;
  timer = cleared l.disconn_timer;
}
changed-Legal disconnecting l a h = record {
  log = changed-log disconnecting l.connection_state (heard l.events) a h.log;
  timer = refl;
}
changed-Legal disconnected l a h = record {
  log = changed-log disconnected l.connection_state (heard l.events) a h.log;
  timer = cleared l.disconn_timer;
}

pub update-Legal :
    (state : ConnectionState) (r : Rfb)
    → Legal r.link
    → Legal (update_connection_state state r).link
unfolding update_connection_state
update-Legal state r h = elim (Bool-cases (accepts state r.link.connection_state)) [
  | inl change ↦ rw change (changed-Legal state r.link change h)
  | inr stays ↦ rw stays h
]

pub fail-Legal : (r : Rfb) → Legal r.link → Legal (fail r).link
unfolding fail
fail-Legal r h = update-Legal disconnected _ (
    update-Legal disconnecting (record r { link = record r.link { clean_disconnect = false } })
      (record { log = h.log; timer = h.timer }))

pub socket_open-Legal : (r : Rfb) → Legal r.link → Legal (socket_open r).link
unfolding socket_open
socket_open-Legal r h =
    elim (Bool-cases (same_state r.link.connection_state connecting && is_not_open r.init_state)) [
      | inl right ↦ rw right h
      | inr wrong ↦ rw wrong (fail-Legal r h)
    ]

close_from-Legal : (s : ConnectionState) (r : Rfb) → Legal r.link → Legal (close_from s r).link
close_from-Legal unset r h = fail-Legal r h
close_from-Legal connecting r h = fail-Legal r h
close_from-Legal connected r h = update-Legal disconnected _ (update-Legal disconnecting r h)
close_from-Legal disconnecting r h = update-Legal disconnected r h
close_from-Legal disconnected r h = fail-Legal r h

pub socket_close-Legal : (r : Rfb) → Legal r.link → Legal (socket_close r).link
unfolding socket_close
socket_close-Legal r h = close_from-Legal r.link.connection_state r h

pub disconnect_now-Legal : (r : Rfb) → Legal r.link → Legal (disconnect_now r).link
unfolding disconnect_now
disconnect_now-Legal r h = update-Legal disconnecting r h

pub timed_out-Legal : (r : Rfb) → Legal r.link → Legal (timed_out r).link
unfolding timed_out
timed_out-Legal r h = either r.link.disconn_timer _ r (update-Legal disconnected r h) h
  where
    either : (b : Bool) (x y : Rfb) → Legal x.link → Legal y.link → Legal (if b then x else y).link
    either true x y p q = p
    either false x y p q = q
