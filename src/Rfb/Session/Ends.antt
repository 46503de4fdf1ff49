-- ===== src/Rfb/Session/Ends.antt =====
-- How a session of core/rfb.js ends.
use proxmox_self_service_por.Prelude.{
  ◌≡◌, ◌≢◌, refl, ◌∙◌, ap, Bool, true, false, List, ◌∷◌, if◌then◌else◌,
}
use proxmox_self_service_por.Websock.State.{Websock}
use proxmox_self_service_por.Rfb.Session.State.{
  ConnectionState, unset, connecting, connected, disconnecting, disconnected, Event, disconnect,
  Link, Rfb,
}
use proxmox_self_service_por.Rfb.Session.Connection.{
  same_state, accepts, changed, update_connection_state, fail, disconnect_now, timed_out,
}
use proxmox_self_service_por.Rfb.Session.Legal.{Legal}

-- The connection has begun, and has not ended.
abbrev pub is_live : ConnectionState → Bool
is_live unset = false
is_live disconnected = false
is_live _ = true

-- `update_connection_state` on what concerns the connection
abbrev updated : ConnectionState → Link → Link
updated state l = if accepts state l.connection_state then changed state l else l

update-updated :
    (state : ConnectionState) (r : Rfb)
    → (update_connection_state state r).link ≡ updated state r.link
unfolding update_connection_state
update-updated state r = go (accepts state r.link.connection_state) _ _
  where
    go :
        (b : Bool) (l : Link) (ws : Websock)
        → (if b then record r { link = l; sock = ws } else r).link ≡ (if b then l else r.link)
    go true l ws = refl
    go false l ws = refl

-- the connection after it has failed
abbrev pub failed : Link → Link
failed l = record {
  connection_state = disconnected;
  clean_disconnect = false;
  disconn_timer = false;
  events = disconnect false ∷ l.events;
}

fail-updated :
    (r : Rfb)
    → (fail r).link
      ≡ updated disconnected (updated disconnecting (record r.link { clean_disconnect = false }))
unfolding fail
fail-updated r =
    let r' = record r { link = record r.link { clean_disconnect = false } } in
    update-updated disconnected (update_connection_state disconnecting r')
    ∙ ap (updated disconnected) (update-updated disconnecting r')

failed-link :
    (s : ConnectionState) (clean timer : Bool) (events : List Event)
    → is_live s ≡ true
    → timer ≡ same_state s disconnecting
    → (let l : Link = record {
      connection_state = s;
      clean_disconnect = false;
      disconn_timer = timer;
      events = events;
    } in
        updated disconnected (updated disconnecting l) ≡ failed l)
failed-link connecting clean timer events live t = refl
failed-link connected clean timer events live t = refl
failed-link disconnecting clean timer events live t = rw t refl
failed-link unset clean timer events live t = cc live
failed-link disconnected clean timer events live t = cc live

-- `_fail` on a connection that has begun and not ended ends it at once: the state is "disconnected", no
-- timeout is pending, and the page hears one "disconnect", which is not clean.
pub fail-failed :
    (r : Rfb)
    → Legal r.link
    → is_live r.link.connection_state ≡ true
    → (fail r).link ≡ failed r.link
fail-failed r h live =
    fail-updated r
    ∙ failed-link r.link.connection_state false r.link.disconn_timer r.link.events live h.timer

timed_out-link :
    (r : Rfb)
    → (timed_out r).link ≡ (if r.link.disconn_timer then updated disconnected r.link else r.link)
unfolding timed_out
timed_out-link r = go r.link.disconn_timer
  where
    go :
        (b : Bool)
        → (if b then update_connection_state disconnected r else r).link
          ≡ (if b then updated disconnected r.link else r.link)
    go true = update-updated disconnected r
    go false = refl

timed : Link → Link
timed l = if l.disconn_timer then updated disconnected l else l

ended-state :
    (s : ConnectionState) (clean timer : Bool) (events : List Event)
    → s ≢ unset
    → timer ≡ same_state s disconnecting
    → (timed (
        updated disconnecting (record {
          connection_state = s;
          clean_disconnect = clean;
          disconn_timer = timer;
          events = events;
        }))).connection_state
      ≡ disconnected
unfolding timed
ended-state unset clean timer events n t = absurd (n refl)
ended-state connecting clean timer events n t = refl
ended-state connected clean timer events n t = refl
ended-state disconnecting clean timer events n t = rw t refl
ended-state disconnected clean timer events n t = rw t refl

-- Once the constructor is done, a call of `disconnect` ends the session even if the server never
-- answers: when its timeout fires, the object is disconnected.
pub disconnect_now-timed_out :
    (r : Rfb)
    → Legal r.link
    → r.link.connection_state ≢ unset
    → (timed_out (disconnect_now r)).link.connection_state ≡ disconnected
unfolding disconnect_now timed
disconnect_now-timed_out r h n =
    ap (λ l. l.connection_state) (timed_out-link (disconnect_now r))
    ∙ ap (λ l. (timed l).connection_state) (update-updated disconnecting r)
    ∙ ended-state r.link.connection_state r.link.clean_disconnect r.link.disconn_timer r.link.events
        n h.timer
