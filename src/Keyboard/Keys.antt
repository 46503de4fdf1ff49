-- ===== src/Keyboard/Keys.antt =====
-- The state of core/input/keyboard.js, and `_sendKeyEvent`.
use Prim.Native.String.{String}
use text.Mathlib.Text.{◌==◌ as str_eq}
use proxmox_self_service_por.Prelude.{
  ℕ, Bool, true, false, Option, none, some, List, [], ◌∷◌, ◌++◌, if◌then◌else◌,
}

-- `_keyDownList` in the order in which its keys were added. A keysym is absent where the source has
-- null.
abbrev pub KeyDownList : Type 0
KeyDownList = List (String × Option ℕ)

-- `code in list`, and what it holds
abbrev pub find : String → KeyDownList → Option (Option ℕ)
find code [] = none
find code ((c, k) ∷ list) = if str_eq c code then some k else find code list

-- `list[code] = keysym`
abbrev pub put : String → Option ℕ → KeyDownList → KeyDownList
put code keysym [] = (code, keysym) ∷ []
put code keysym ((c, k) ∷ list) =
    let rest = put code keysym list in if str_eq c code then (c, keysym) ∷ list else (c, k) ∷ rest

-- `delete list[code]`
abbrev pub remove : String → KeyDownList → KeyDownList
remove code [] = []
remove code ((c, k) ∷ list) =
    let rest = remove code list in if str_eq c code then rest else (c, k) ∷ rest

-- The call of `onkeyevent`. A lock's state is absent where it is null.
pub record KeyEvent : Type 0 where
  pub keysym : Option ℕ
  pub code : String
  pub down : Bool
  pub numlock : Option Bool
  pub capslock : Option Bool

-- The fields. The timer `_altGrTimeout` runs exactly while the detection is armed.
pub record Keyboard : Type 0 where
  pub key_down_list : KeyDownList
  pub alt_gr_armed : Bool
  pub alt_gr_ctrl_time : ℕ

-- the constructor
unfoldable pub new_keyboard : Keyboard
new_keyboard = record { key_down_list = []; alt_gr_armed = false; alt_gr_ctrl_time = 0 }

-- A method: the calls of `onkeyevent`, and the fields afterwards.
abbrev pub Step : Type 0
Step = Keyboard → List KeyEvent × Keyboard

abbrev pub and_then : List KeyEvent × Keyboard → Step → List KeyEvent × Keyboard
and_then (events, s) next = let r = next s in (events ++ r.0, r.1)

-- Steps in order.
infixl 5 ◌>>◌
abbrev pub ◌>>◌ : Step → Step → Step
◌>>◌ m k s = and_then (m s) k

abbrev pub nothing : Step
nothing s = ([], s)

pub record Locks : Type 0 where
  pub numlock : Option Bool
  pub capslock : Option Bool

-- both arguments left out
abbrev pub no_locks : Locks
no_locks = record { numlock = none; capslock = none }

abbrev pub event : Option ℕ → String → Bool → Locks → KeyEvent
event keysym code down locks = record {
  keysym = keysym;
  code = code;
  down = down;
  numlock = locks.numlock;
  capslock = locks.capslock;
}

-- `_sendKeyEvent` with `down` true
unfoldable pub send_down : Option ℕ → String → Locks → Step
send_down keysym code locks s = (
  event keysym code true locks ∷ [],
  record s { key_down_list = put code keysym s.key_down_list },
)

-- the release, once it is known whether the key is down
abbrev pub release : Option ℕ → String → Locks → Option (Option ℕ) → Step
release keysym code locks none s = ([], s)
release keysym code locks (some _) s =
    (event keysym code false locks ∷ [], record s { key_down_list = remove code s.key_down_list })

-- `_sendKeyEvent` with `down` false
unfoldable pub send_up : Option ℕ → String → Locks → Step
send_up keysym code locks s = release keysym code locks (find code s.key_down_list) s

abbrev pub send_key_event : Option ℕ → String → Bool → Locks → Step
send_key_event keysym code true locks = send_down keysym code locks
send_key_event keysym code false locks = send_up keysym code locks
