-- ===== src/Gesture/State.antt =====
-- The fields of core/input/gesturehandler.js, the events it dispatches, and how its methods end.
use proxmox_self_service_por.Prelude.{ℕ, Bool, true, false, Option, List, [], if◌then◌else◌}
use proxmox_self_service_por.Gesture.Flags.{Gesture, Flags, init_state}
use proxmox_self_service_por.Gesture.Touches.{Touch, Point}

pub data EventType : Type 0 where
  gesturestart gesturemove gestureend : EventType

-- the `detail` of an event
pub record Detail : Type 0 where
  pub gesture : Gesture
  pub client : Point
  pub magnitude : Option Point

pub record GestureEvent : Type 0 where
  pub type : EventType
  pub detail : Detail

-- A timeout's id: `null`, that of a timer that waits, or that of one whose callback has run.
pub data Timer : Type 0 where
  unset waiting expired : Timer

-- The fields; `attached` tells if there is a `_target`, and `events` is the log of what was dispatched
-- to it, the newest first.
pub record Handler : Type 0 where
  pub attached : Bool
  pub state : Flags
  pub tracked : List Touch
  pub ignored : List ℕ
  pub waiting_release : Bool
  pub release_start : ℕ
  pub longpress_timeout : Timer
  pub two_touch_timeout : Timer
  pub events : List GestureEvent

-- the constructor
abbrev pub new_handler : Handler
new_handler = record {
  attached = false;
  state = init_state;
  tracked = [];
  ignored = [];
  waiting_release = false;
  release_start = 0;
  longpress_timeout = unset;
  two_touch_timeout = unset;
  events = [];
}

pub data Error : Type 0 where
  longpress_conflict no_tracked_touches unknown_state no_target undefined_touch : Error

-- A method returns or throws.
pub data Result : Type 0 where
  returned : Handler → Result
  thrown : Error → Handler → Result

abbrev pub then_do : Result → (Handler → Result) → Result
then_do (returned h) f = f h
then_do (thrown e h) f = thrown e h

abbrev pub stop_longpress_timeout : Handler → Handler
stop_longpress_timeout h = record h { longpress_timeout = unset }

abbrev pub start_longpress_timeout : Handler → Handler
start_longpress_timeout h = record (stop_longpress_timeout h) { longpress_timeout = waiting }

abbrev pub stop_two_touch_timeout : Handler → Handler
stop_two_touch_timeout h = record h { two_touch_timeout = unset }

abbrev pub start_two_touch_timeout : Handler → Handler
start_two_touch_timeout h = record (stop_two_touch_timeout h) { two_touch_timeout = waiting }

-- `_twoTouchTimeoutId !== null`
abbrev pub is_set : Timer → Bool
is_set unset = false
is_set waiting = true
is_set expired = true

-- `detach` and `attach`, but for the listeners
unfoldable pub detach : Handler → Handler
detach h =
    if h.attached
    then record (stop_two_touch_timeout (stop_longpress_timeout h)) { attached = false }
    else h

unfoldable pub attach : Handler → Handler
unfolding detach
attach h = record (detach h) { attached = true }
