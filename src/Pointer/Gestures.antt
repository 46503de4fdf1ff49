-- ===== src/Pointer/Gestures.antt =====
-- The gestures and the locks of the keyboard: `_handleGesture`, `_handleTapEvent` and `_handleKeyEvent` of
-- core/rfb.js. `Date.now()` is an argument, and so are `Math.hypot` in whole pixels and the threshold of
-- a drag.
use proxmox_self_service_por.Prelude.{
  ℕ, zero, suc, ◌-◌, ◌*◌, Bool, true, false, ◌&&◌, Option, none, some, ◌==◌, ltb, if◌then◌else◌,
}
use proxmox_self_service_por.Prelude.Int.{ℤ, pos, ◌+ℤ◌, ◌-ℤ◌, ltb_ℤ}
use proxmox_self_service_por.Gesture.Flags.{
  Gesture, onetap, twotap, threetap, drag, longpress, twodrag, pinch, flag, mask,
}
use proxmox_self_service_por.Gesture.Touches.{abs, hypot²}
use proxmox_self_service_por.Gesture.State.{EventType, gesturestart, gesturemove, gestureend}
use proxmox_self_service_por.Pointer.State.{
  Position, key, cursor, Tap, Pointer, Result, returned, endless, then_do, ◌>>◌, change, call,
  client_to_element,
}
use proxmox_self_service_por.Pointer.Mouse.{handle_mouse_button, handle_mouse_move, drag_to}

-- `sendKey`, but for the choice of the message
unfoldable pub send_key : ℕ → Bool → Pointer → Pointer
send_key keysym down p =
    if p.connected && (if p.view_only then false else true) then call (key keysym down) p else p

pub data Code : Type 0 where
  caps_lock num_lock other : Code

-- The state of a lock at the remote end and here; `none` is undefined and `some none` null.
abbrev differs : Option Bool → Option (Option Bool) → Bool
differs none local = false
differs (some r) none = true
differs (some r) (some none) = false
differs (some true) (some (some l)) = if l then false else true
differs (some false) (some (some l)) = l

abbrev forget_caps : Pointer → Pointer
forget_caps p = record p { remote_caps_lock = none }

abbrev forget_num : Pointer → Pointer
forget_num p = record p { remote_num_lock = none }

abbrev own_key : Code → Bool → Pointer → Pointer
own_key caps_lock true p = forget_caps p
own_key num_lock true p = forget_num p
own_key code down p = p

-- XK_Caps_Lock is 65509 and XK_Num_Lock 65407.
abbrev fix_caps : Option (Option Bool) → Bool → Pointer → Pointer
fix_caps caps down p =
    if differs p.remote_caps_lock caps && down
    then forget_caps (send_key 65509 false (send_key 65509 true p))
    else p

abbrev fix_num : Option (Option Bool) → Bool → Pointer → Pointer
fix_num num down p =
    if differs p.remote_num_lock num && down
    then forget_num (send_key 65407 false (send_key 65407 true p))
    else p

abbrev if_code : Bool → Code → Bool → Pointer → Pointer
if_code caps caps_lock down p = if caps then own_key caps_lock down p else p
if_code caps num_lock down p = if caps then p else own_key num_lock down p
if_code caps other down p = p

unfoldable pub handle_key_event :
    ℕ → Code → Bool → Option (Option Bool) → Option (Option Bool) → Pointer → Pointer
handle_key_event keysym code down num caps p =
    send_key keysym down
      (fix_num num down (if_code false code down (fix_caps caps down (if_code true code down p))))

-- A gesture's event, with its magnitude in whole pixels.
pub record GestureInput : Type 0 where
  pub type : EventType
  pub gesture : Gesture
  pub client : Position
  pub magnitude_x : ℤ
  pub magnitude_y : ℤ

-- the browser's measures
pub record Page : Type 0 where
  pub hypot : ℤ → ℤ → ℤ
  pub drag_threshold : ℕ

unfoldable pub fake_mouse_move : Position → Position → ℕ → Pointer → Result
fake_mouse_move client at now = handle_mouse_move at now >> change (call (cursor client))

-- `_handleTapEvent`; DOUBLE_TAP_TIMEOUT is 1000 and DOUBLE_TAP_THRESHOLD 50.
abbrev is_soon : Option ℕ → ℕ → Bool
is_soon none now = false
is_soon (some t) now = ltb (now - t) 1000

abbrev is_same : Gesture → Gesture → Bool
is_same g k = mask (flag g) == mask (flag k)

-- the tap whose place counts, which is the first of a double tap
unfoldable pub tap_of : Tap → ℕ → Pointer → Tap
tap_of t now p =
    let first = p.gesture_first_double_tap_ev in
    let near =
      ltb (hypot² (first.client.x -ℤ t.client.x) (first.client.y -ℤ t.client.y)) (50 * 50) in
    if is_soon p.gesture_last_tap_time now && is_same first.gesture t.gesture && near
    then first
    else t

abbrev pub click_at : Position → ℕ → Pointer → Result
click_at at button = handle_mouse_button at button >> handle_mouse_button at 0

unfoldable pub handle_tap_event : Tap → ℕ → ℕ → Pointer → Result
handle_tap_event t button now p =
    let first = tap_of t now p in
    let at = client_to_element first.client p.bounds in
    let p' = record p { gesture_first_double_tap_ev = first; gesture_last_tap_time = some now } in
    (fake_mouse_move first.client at now >> click_at at button) p'

-- A loop that scrolls: while `left` is more than `sense`, a click and a step. `fuel` bounds its rounds.
unfoldable pub scroll :
    (Pointer → ℤ) → (Pointer → Pointer) → ℕ → Position → ℕ → ℕ → Pointer → Result
scroll left step sense at button zero p = if ltb_ℤ (pos sense) (left p) then endless else returned p
scroll left step sense at button (suc fuel) p =
    if ltb_ℤ (pos sense) (left p)
    then then_do (click_at at button p) (λ q. scroll left step sense at button fuel (step q))
    else returned p

-- `GESTURE_SCRLSENS` is 50, and `GESTURE_ZOOMSENS` 75. There is a round for every pixel.
abbrev pub step_x : ℤ → Pointer → Pointer
step_x d p = record p { gesture_last_magnitude_x = p.gesture_last_magnitude_x +ℤ d }

abbrev pub step_y : ℤ → Pointer → Pointer
step_y d p = record p { gesture_last_magnitude_y = p.gesture_last_magnitude_y +ℤ d }

abbrev pub scroll_forth_x : ℤ → ℕ → Position → ℕ → Pointer → Result
scroll_forth_x m sense at button p =
    scroll (λ q. m -ℤ q.gesture_last_magnitude_x) (step_x (pos sense)) sense at button
      (abs (m -ℤ p.gesture_last_magnitude_x)) p

abbrev pub scroll_back_x : ℤ → ℕ → Position → ℕ → Pointer → Result
scroll_back_x m sense at button p =
    scroll (λ q. q.gesture_last_magnitude_x -ℤ m) (step_x (pos 0 -ℤ pos sense)) sense at button
      (abs (m -ℤ p.gesture_last_magnitude_x)) p

abbrev pub scroll_forth_y : ℤ → ℕ → Position → ℕ → Pointer → Result
scroll_forth_y m sense at button p =
    scroll (λ q. m -ℤ q.gesture_last_magnitude_y) (step_y (pos sense)) sense at button
      (abs (m -ℤ p.gesture_last_magnitude_y)) p

abbrev pub scroll_back_y : ℤ → ℕ → Position → ℕ → Pointer → Result
scroll_back_y m sense at button p =
    scroll (λ q. q.gesture_last_magnitude_y -ℤ m) (step_y (pos 0 -ℤ pos sense)) sense at button
      (abs (m -ℤ p.gesture_last_magnitude_y)) p

module _ (page : Page) (e : GestureInput) (at : Position) (now : ℕ) where
  abbrev pub move_mouse : Pointer → Result
  move_mouse = fake_mouse_move e.client at now

  abbrev pub tap_with : ℕ → Pointer → Result
  tap_with button = handle_tap_event (record { gesture = e.gesture; client = e.client }) button now

  -- `case 'gesturestart'`
  abbrev pub start_gesture : Gesture → Pointer → Result
  start_gesture onetap p = tap_with 1 p
  start_gesture twotap p = tap_with 4 p
  start_gesture threetap p = tap_with 2 p
  start_gesture drag p =
      if p.drag_viewport
      then returned (record p {
        viewport_has_moved = false;
        viewport_dragging = true;
        viewport_drag_pos = at;
      })
      else (move_mouse >> handle_mouse_button at 1) p
  start_gesture longpress p =
      if p.drag_viewport
      then returned (record p { viewport_has_moved = false; viewport_drag_pos = at })
      else (move_mouse >> handle_mouse_button at 4) p
  start_gesture twodrag p = move_mouse (record p {
    gesture_last_magnitude_x = e.magnitude_x;
    gesture_last_magnitude_y = e.magnitude_y;
  })
  start_gesture pinch p =
      move_mouse (record p { gesture_last_magnitude_x = page.hypot e.magnitude_x e.magnitude_y })

  -- `case 'gesturemove'`; XK_Control_L is 65507.
  abbrev pub drag_view : Pointer → Result
  drag_view p =
      if p.drag_viewport
      then returned (drag_to page.drag_threshold at (record p { viewport_dragging = true }))
      else move_mouse p

  abbrev pub control_key : Bool → Pointer → Pointer
  control_key down = handle_key_event 65507 other down none none

  abbrev pub zoom : ℤ → Pointer → Result
  zoom m p =
      if ltb 75 (abs (m -ℤ p.gesture_last_magnitude_x))
      then (scroll_forth_x m 75 at 8 >> scroll_back_x m 75 at 16) (control_key true p)
      else returned p

  abbrev pub move_gesture : Gesture → Pointer → Result
  move_gesture drag p = drag_view p
  move_gesture longpress p = drag_view p
  move_gesture twodrag p =
      (move_mouse
          >> scroll_forth_y e.magnitude_y 50 at 8
          >> scroll_back_y e.magnitude_y 50 at 16
          >> scroll_forth_x e.magnitude_x 50 at 32
          >> scroll_back_x e.magnitude_x 50 at 64)
        p
  move_gesture pinch p =
      (move_mouse >> zoom (page.hypot e.magnitude_x e.magnitude_y) >> change (control_key false)) p
  move_gesture g p = returned p

  -- `case 'gestureend'`
  abbrev pub end_gesture : Gesture → Pointer → Result
  end_gesture drag p =
      if p.drag_viewport
      then returned (record p { viewport_dragging = false })
      else (move_mouse >> handle_mouse_button at 0) p
  end_gesture longpress p =
      if p.viewport_has_moved
      then returned p
      else if p.drag_viewport
      then (move_mouse >> click_at at 4 >> change (λ q. record q { viewport_dragging = false })) p
      else (move_mouse >> handle_mouse_button at 0) p
  end_gesture g p = returned p

  abbrev pub by_type : EventType → Pointer → Result
  by_type gesturestart p = start_gesture e.gesture p
  by_type gesturemove p = move_gesture e.gesture p
  by_type gestureend p = end_gesture e.gesture p

unfoldable pub handle_gesture : Page → GestureInput → ℕ → Pointer → Result
handle_gesture page e now p = by_type page e (client_to_element e.client p.bounds) now e.type p
