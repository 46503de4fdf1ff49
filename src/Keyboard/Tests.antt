-- ===== src/Keyboard/Tests.antt =====
-- The theorems about core/input/keyboard.js at concrete inputs.
use proxmox_self_service_por.Prelude.{◌≡◌, refl, true, false, some, List, [], ◌∷◌}
use proxmox_self_service_por.Keyboard.Keys.{new_keyboard}
use proxmox_self_service_por.Keyboard.Keycode.{DomKey, get_keycode, NotLeft, get_keycode-NotLeft}
use proxmox_self_service_por.Keyboard.Replay.{replay}
use proxmox_self_service_por.Keyboard.Handlers.{Platform, DomEvent, all_keys_up}
use proxmox_self_service_por.Keyboard.Inputs.{
  Input, key_down, key_up, timer, handle_inputs, handle_inputs-accepted, all_keys_up-released,
}

abbrev windows : Platform
windows = record { is_mac = false; is_ios = false; is_windows = true }

abbrev left_ctrl : DomEvent
left_ctrl = record {
  code = "ControlLeft";
  keysym = some 65507;
  numlock = false;
  capslock = false;
  meta_key = false;
  time_stamp = 1000;
}

-- twenty milliseconds after the left Ctrl
abbrev right_alt : DomEvent
right_alt = record left_ctrl { code = "AltRight"; keysym = some 65514; time_stamp = 1020 }

abbrev key_q : DomEvent
key_q = record left_ctrl { code = "KeyQ"; keysym = some 64; time_stamp = 1100 }

abbrev no_code : DomEvent
no_code = record left_ctrl { code = "Unidentified"; keysym = some 97; time_stamp = 1200 }

-- AltGr and q on Windows, a virtual key, then a real Ctrl
abbrev alt_gr_q : List Input
alt_gr_q =
    key_down left_ctrl
    ∷ key_down right_alt
    ∷ key_down key_q
    ∷ key_down no_code
    ∷ key_down left_ctrl
    ∷ timer
    ∷ key_up key_q
    ∷ []

handle_inputs-accepted_example :
    replay (handle_inputs windows alt_gr_q new_keyboard).0 []
    ≡ some (handle_inputs windows alt_gr_q new_keyboard).1.key_down_list
handle_inputs-accepted_example = handle_inputs-accepted windows alt_gr_q

all_keys_up-released_example :
    replay
      (all_keys_up windows (handle_inputs windows alt_gr_q new_keyboard).1).0
      (handle_inputs windows alt_gr_q new_keyboard).1.key_down_list
    ≡ some []
all_keys_up-released_example = all_keys_up-released windows alt_gr_q

-- the virtual key of Shift, on the right
abbrev right_shift : DomKey
right_shift = record { code = ""; key_code = 16; location = 2 }

right_shift_code : get_keycode false right_shift ≡ "ShiftRight"
unfolding get_keycode
right_shift_code = refl

get_keycode-NotLeft_example : NotLeft (get_keycode false right_shift)
get_keycode-NotLeft_example = get_keycode-NotLeft false right_shift refl refl
