-- ===== src/Rfb/Session/State.antt =====
-- The fields of an RFB object (core/rfb.js) that the session works on, and how its methods end.
use Prim.Native.String.{String}
use proxmox_self_service_por.Prelude.{ℕ, Bool, Option, none, some, List, ◌∷◌}
use proxmox_self_service_por.Prelude.Int.{ℤ}
use proxmox_self_service_por.Websock.State.{Websock, Error, Outcome, done, raised}
use proxmox_self_service_por.Display.Queue.{Display}

-- `_rfbConnectionState`; `unset` is the empty text
pub data ConnectionState : Type 0 where
  unset connecting connected disconnecting disconnected : ConnectionState

-- `_rfbInitState`; `unset` is the empty text
pub data InitState : Type 0 where
  not_open protocol_version security authentication security_result security_reason : InitState
  client_initialisation server_initialisation : InitState

-- The events that are dispatched; a text is the list of its character codes.
pub data Event : Type 0 where
  connect : Event
  disconnect : Bool → Event
  security_failure : ℕ → Option (List ℕ) → Event
  credentials_required : Event
  desktop_name : List ℕ → Event
  bell : Event
  power_capability : Event
  clipboard : List ℕ → Event

-- What concerns the connection itself; `events` is the log of the events, the newest first, and
-- `disconn_timer` tells if the timeout of a disconnect is pending.
pub record Link : Type 0 where
  pub connection_state : ConnectionState
  pub clean_disconnect : Bool
  pub disconn_timer : Bool
  pub events : List Event

-- `_FBU`
pub record Fbu : Type 0 where
  pub rects : ℕ
  pub x : ℕ
  pub y : ℕ
  pub width : ℕ
  pub height : ℕ
  pub encoding : Option ℤ

-- `_rfbCredentials`
pub record Credentials : Type 0 where
  pub username : Option (List ℕ)
  pub password : Option (List ℕ)
  pub target : Option (List ℕ)

-- The fields. A version is ten times the source's number; `none` of `auth_scheme` is -1.
pub record Rfb : Type 0 where
  pub link : Link
  pub sock : Websock
  pub display : Display
  pub init_state : InitState
  pub version : ℕ
  pub max_version : ℕ
  pub tight_vnc : Bool
  pub xvp_ver : ℕ
  pub auth_scheme : Option ℕ
  pub security_context : String
  pub security_status : ℕ
  pub credentials : Credentials
  pub shared : Bool
  pub repeater_id : List ℕ
  pub view_only : Bool
  pub quality_level : ℕ
  pub compression_level : ℕ
  pub fb_width : ℕ
  pub fb_height : ℕ
  pub fb_depth : ℕ
  pub fb_name : List ℕ
  pub fbu : Fbu
  pub flushing : Bool
  pub supports_fence : Bool
  pub supports_continuous_updates : Bool
  pub enabled_continuous_updates : Bool
  pub qemu_ext_key_event_supported : Bool
  pub extended_pointer_event_supported : Bool
  pub remote_caps_lock : Option Bool
  pub remote_num_lock : Option Bool
  -- the calls of `_initMsg` that `_resumeAuthentication` has scheduled
  pub resumes : ℕ

-- A method returns, throws, or never ends. It is `endless` with the fields as they are when a loop is
-- out of rounds, or when a call of the socket that never ends is made.
pub data Ended (A : Type 0) : Type 0 where
  returned : A → Rfb → Ended A
  thrown : Error → Rfb → Ended A
  endless : Rfb → Ended A

abbrev pub Method : Type 0 → Type 0
Method A = Rfb → Ended A

unfoldable pub pure : {A : Type 0} → A → Method A
pure a r = returned a r

infixl 5 ◌>>=◌ ◌>>◌
unfoldable pub ◌>>=◌ : {A B : Type 0} → Method A → (A → Method B) → Method B
◌>>=◌ m f r = elim (m r) [
  | returned a r' ↦ f a r'
  | thrown e r' ↦ thrown e r'
  | endless r' ↦ endless r'
]

unfoldable pub ◌>>◌ : {A B : Type 0} → Method A → Method B → Method B
unfolding ◌>>=◌
m >> k = m >>= (λ _. k)

-- a change of the fields but for the connection's
unfoldable pub modify : (Rfb → Rfb) → Method (Unit {0})
modify f r = returned tt (record (f r) { link = r.link })

-- the value of the fields
unfoldable pub asks : {A : Type 0} → (Rfb → A) → Method A
asks f r = returned (f r) r

abbrev pub from_outcome : {A : Type 0} → Rfb → Outcome A → Ended A
from_outcome r (done a ws) = returned a (record r { sock = ws })
from_outcome r (raised e ws) = thrown e (record r { sock = ws })

abbrev pub from_sender : Rfb → Option (Outcome (Unit {0})) → Ended (Unit {0})
from_sender r none = endless r
from_sender r (some o) = from_outcome r o

-- the methods of `_sock`: those that read, those that may throw, and those that may not end
unfoldable pub read : {A : Type 0} → (Websock → A × Websock) → Method A
read f r = let (a, ws) = f r.sock in returned a (record r { sock = ws })

unfoldable pub on_sock : {A : Type 0} → (Websock → Outcome A) → Method A
on_sock f r = from_outcome r (f r.sock)

unfoldable pub send : (Websock → Option (Outcome (Unit {0}))) → Method (Unit {0})
send f r = from_sender r (f r.sock)

-- `dispatchEvent`
abbrev pub notify : Event → Link → Link
notify e l = record l { events = e ∷ l.events }

unfoldable pub dispatch : Event → Method (Unit {0})
dispatch e r = returned tt (record r { link = notify e r.link })
