-- ===== src/Rfb/Session/Keeps.antt =====
-- The methods of the session in core/rfb.js change the connection's state only as they may.
use proxmox_self_service_por.Prelude.{ℕ, Bool, true, false, Option, none, some, List, if◌then◌else◌}
use proxmox_self_service_por.Websock.State.{Outcome, done, raised, Websock}
use proxmox_self_service_por.Rfb.Session.State.{
  Event, Link, Rfb, Ended, returned, thrown, endless, Method, notify, ◌>>=◌, ◌>>◌, pure, modify,
  asks, read, on_sock, send, dispatch, from_outcome, from_sender, security_failure,
  credentials_required, desktop_name, bell, power_capability, clipboard,
}
use proxmox_self_service_por.Rfb.Session.Connection.{failing}
use proxmox_self_service_por.Rfb.Session.Legal.{Legal, fail-Legal}

abbrev pub EndedLegal : {A : Type 0} → Ended A → Type 0
EndedLegal (returned a r) = Legal r.link
EndedLegal (thrown e r) = Legal r.link
EndedLegal (endless r) = Legal r.link

-- A method that keeps the connection legal, however it ends.
pub record Keeps {A : Type 0} (m : Method A) : Type 0 where
  pub legal : (r : Rfb) → Legal r.link → EndedLegal (m r)

pub pure-Keeps : {A : Type 0} (a : A) → Keeps (pure a)
unfolding pure
pure-Keeps a = record { legal = λ r h. h }

pub bind-Keeps :
    {A B : Type 0} (m : Method A) (f : A → Method B)
    → Keeps m
    → ((a : A) → Keeps (f a))
    → Keeps (m >>= f)
unfolding ◌>>=◌
bind-Keeps {A = A} {B = B} m f k l = record { legal = λ r h. go (m r) (k.legal r h) }
  where
    go :
        (e : Ended A)
        → EndedLegal e
        → EndedLegal (elim e as (λ _. Ended B) [
          | returned a r' ↦ f a r'
          | thrown x r' ↦ thrown x r'
          | endless r' ↦ endless r'
        ])
    go (returned a r') h = (l a).legal r' h
    go (thrown x r') h = h
    go (endless r') h = h

pub then-Keeps : {A B : Type 0} (m : Method A) (k : Method B) → Keeps m → Keeps k → Keeps (m >> k)
unfolding ◌>>◌
then-Keeps m k p q = bind-Keeps m (λ _. k) p (λ _. q)

pub if-Keeps :
    {A : Type 0} (b : Bool) (m k : Method A) → Keeps m → Keeps k → Keeps (if b then m else k)
if-Keeps true m k p q = p
if-Keeps false m k p q = q

pub modify-Keeps : (f : Rfb → Rfb) → Keeps (modify f)
unfolding modify
modify-Keeps f = record { legal = λ r h. h }

pub asks-Keeps : {A : Type 0} (f : Rfb → A) → Keeps (asks f)
unfolding asks
asks-Keeps f = record { legal = λ r h. h }

pub read-Keeps : {A : Type 0} (f : Websock → A × Websock) → Keeps (read f)
unfolding read
read-Keeps f = record { legal = λ r h. h }

from_outcome-Legal :
    {A : Type 0} (r : Rfb) (o : Outcome A) → Legal r.link → EndedLegal (from_outcome r o)
from_outcome-Legal r (done a ws) h = h
from_outcome-Legal r (raised e ws) h = h

from_sender-Legal :
    (r : Rfb) (o : Option (Outcome (Unit {0}))) → Legal r.link → EndedLegal (from_sender r o)
from_sender-Legal r none h = h
from_sender-Legal r (some o) h = from_outcome-Legal r o h

pub on_sock-Keeps : {A : Type 0} (f : Websock → Outcome A) → Keeps (on_sock f)
unfolding on_sock
on_sock-Keeps f = record { legal = λ r h. from_outcome-Legal r (f r.sock) h }

pub send-Keeps : (f : Websock → Option (Outcome (Unit {0}))) → Keeps (send f)
unfolding send
send-Keeps f = record { legal = λ r h. from_sender-Legal r (f r.sock) h }

-- An event that does not tell of the connection may come at any time.
notice-Keeps : (e : Event) → ((l : Link) → Legal l → Legal (notify e l)) → Keeps (dispatch e)
unfolding dispatch
notice-Keeps e k = record { legal = λ r h. k r.link h }

pub failure-Keeps : (s : ℕ) (t : Option (List ℕ)) → Keeps (dispatch (security_failure s t))
failure-Keeps s t = notice-Keeps _ (λ l h. record { log = h.log; timer = h.timer })

pub credentials-Keeps : Keeps (dispatch credentials_required)
credentials-Keeps = notice-Keeps _ (λ l h. record { log = h.log; timer = h.timer })

pub name-Keeps : (t : List ℕ) → Keeps (dispatch (desktop_name t))
name-Keeps t = notice-Keeps _ (λ l h. record { log = h.log; timer = h.timer })

pub bell-Keeps : Keeps (dispatch bell)
bell-Keeps = notice-Keeps _ (λ l h. record { log = h.log; timer = h.timer })

pub power-Keeps : Keeps (dispatch power_capability)
power-Keeps = notice-Keeps _ (λ l h. record { log = h.log; timer = h.timer })

pub clipboard-Keeps : (t : List ℕ) → Keeps (dispatch (clipboard t))
clipboard-Keeps t = notice-Keeps _ (λ l h. record { log = h.log; timer = h.timer })

pub failing-Keeps : Keeps failing
unfolding failing
failing-Keeps = record { legal = λ r h. fail-Legal r h }

-- the rules by which a method made of others keeps the connection legal
pub ruleset keeping = (
  pure-Keeps, bind-Keeps, then-Keeps, if-Keeps, modify-Keeps, asks-Keeps, read-Keeps, on_sock-Keeps,
  send-Keeps, failing-Keeps, failure-Keeps, credentials-Keeps, name-Keeps, bell-Keeps, power-Keeps,
  clipboard-Keeps,
)
