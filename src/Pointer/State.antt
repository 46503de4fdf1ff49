-- ===== src/Pointer/State.antt =====
-- The fields of an RFB object (core/rfb.js) that its mouse and gesture handlers work on.
use proxmox_self_service_por.Prelude.{
  ℕ, ◌+◌, ◌*◌, ◌/◌, ◌%◌, Bool, true, false, Option, List, ◌∷◌, ◌==◌, if◌then◌else◌,
}
use proxmox_self_service_por.Prelude.Int.{ℤ, pos, ◌-ℤ◌, ltb_ℤ}
use proxmox_self_service_por.Gesture.Flags.{Gesture}

pub record Position : Type 0 where
  pub x : ℤ
  pub y : ℤ

-- What the handlers call, the newest last: the two messages for the pointer, at a position on the
-- element; `sendKey`, with the keysym and whether the key goes down; the display's viewport, moved; and
-- the local cursor, moved.
pub data Sent : Type 0 where
  pointer : Position → ℕ → Sent
  extended_pointer : Position → ℕ → Sent
  key : ℕ → Bool → Sent
  viewport : ℤ → ℤ → Sent
  cursor : Position → Sent

-- `getBoundingClientRect` of the canvas
pub record Bounds : Type 0 where
  pub left : ℤ
  pub top : ℤ
  pub right : ℤ
  pub bottom : ℤ
  pub width : ℤ
  pub height : ℤ

-- The tap that a double tap goes by.
pub record Tap : Type 0 where
  pub gesture : Gesture
  pub client : Position

-- The fields; `mouse_move_timer` tells if the timer is set, and `sent` is the log, the newest first.
pub record Pointer : Type 0 where
  pub connected : Bool
  pub view_only : Bool
  pub extended_pointer_event_supported : Bool
  pub drag_viewport : Bool
  pub bounds : Bounds
  pub mouse_button_mask : ℕ
  pub mouse_pos : Position
  pub mouse_move_timer : Bool
  pub mouse_last_move_time : ℕ
  pub viewport_dragging : Bool
  pub viewport_drag_pos : Position
  pub viewport_has_moved : Bool
  pub accumulated_wheel_delta_x : ℤ
  pub accumulated_wheel_delta_y : ℤ
  pub gesture_last_tap_time : Option ℕ
  pub gesture_first_double_tap_ev : Tap
  pub gesture_last_magnitude_x : ℤ
  pub gesture_last_magnitude_y : ℤ
  pub remote_caps_lock : Option Bool
  pub remote_num_lock : Option Bool
  pub sent : List Sent

-- A handler returns, throws, or never ends.
pub data Result : Type 0 where
  returned : Pointer → Result
  thrown : Pointer → Result
  endless : Result

infixl 5 ◌>>◌
abbrev pub then_do : Result → (Pointer → Result) → Result
then_do (returned p) f = f p
then_do (thrown p) f = thrown p
then_do endless f = endless

abbrev pub ◌>>◌ : (Pointer → Result) → (Pointer → Result) → Pointer → Result
◌>>◌ f g p = then_do (f p) g

abbrev pub change : (Pointer → Pointer) → Pointer → Result
change f p = returned (f p)

abbrev pub call : Sent → Pointer → Pointer
call s p = record p { sent = s ∷ p.sent }

-- core/util/element.js: a position on the page as one on the canvas, within its bounds
abbrev clip_to : ℤ → ℤ → ℤ → ℤ → ℤ
clip_to v low high size =
    if ltb_ℤ v low then pos 0 else if ltb_ℤ v high then v -ℤ low else size -ℤ pos 1

unfoldable pub client_to_element : Position → Bounds → Position
client_to_element c b = record {
  x = clip_to c.x b.left b.right b.width;
  y = clip_to c.y b.top b.bottom b.height;
}

-- `_convertButtonMask`: the bits are distinct, so that `|=` adds them
abbrev pub convert_button_mask : ℕ → ℕ
convert_button_mask buttons =
    buttons % 2
    + buttons / 2 % 2 * 4
    + buttons / 4 % 2 * 2
    + buttons / 8 % 2 * 128
    + buttons / 16 % 2 * 256

-- `_sendMouse`; the bits 0x8000 and 0x7f80 of the mask
abbrev pub report : Position → ℕ → Bool → Sent
report at mask true = if mask / 128 % 256 == 0 then pointer at mask else extended_pointer at mask
report at mask false = pointer at mask

unfoldable pub send_mouse : Position → ℕ → Pointer → Result
send_mouse at mask p =
    if p.connected
    then (if p.view_only
        then returned p
        else if mask / 32768 % 2 == 0
        then returned (call (report at mask p.extended_pointer_event_supported) p)
        else thrown p)
    else returned p
