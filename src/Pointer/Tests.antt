-- ===== src/Pointer/Tests.antt =====
-- Tests of the model of the mouse and the gestures of core/rfb.js, and examples of the theorems.
use proxmox_self_service_por.Prelude.{ℕ, ◌+◌, ◌≡◌, refl, true, false, none, some, List, [], ◌∷◌}
use proxmox_self_service_por.Prelude.Int.{ℤ, pos, ◌+ℤ◌, ◌-ℤ◌, ◌*ℤ◌}
use proxmox_self_service_por.Gesture.Flags.{Gesture, onetap, longpress, pinch}
use proxmox_self_service_por.Gesture.Touches.{Fraction, abs}
use proxmox_self_service_por.Gesture.State.{
  EventType, gesturestart, gesturemove, gestureend, GestureEvent, Handler, new_handler, attach,
  detach,
}
use proxmox_self_service_por.Gesture.State
use proxmox_self_service_por.Gesture.Handler.{
  touchstart, touchmove, touchend, Contact, event_handler,
}
use proxmox_self_service_por.Gesture.Runs.{Reached, fresh, touched, reached-Sound}
use proxmox_self_service_por.Pointer.State.{
  Position, Sent, pointer, extended_pointer, key, viewport, cursor, Bounds, Pointer, Result,
  returned, thrown, endless, then_do, send_mouse, client_to_element,
}
use proxmox_self_service_por.Pointer.Mouse.{
  handle_mouse_move, handle_mouse_button, flush_mouse_move_timer, drag_to, mousedown, mousemove,
  handle_mouse, handle_wheel, wheel_x, wheel_y,
}
use proxmox_self_service_por.Pointer.Gestures.{
  GestureInput, Page, handle_gesture, handle_tap_event, tap_of, fake_mouse_move, scroll, send_key,
  handle_key_event,
}
use proxmox_self_service_por.Pointer.Released.{deliver}
use proxmox_self_service_por.Pointer.Legal.{
  Input, mouse, wheel, timer, handle_inputs, HasLegalMask, handle_inputs-HasLegalMask,
}
use proxmox_self_service_por.Pointer.Touches.{
  touches_release, settle, Reports, handle_mouse_move-reported,
}

abbrev at : ℕ → ℕ → Position
at x y = record { x = pos x; y = pos y }

abbrev page : Page
page = record { hypot = λ x y. pos (abs x + abs y); drag_threshold = 10 }

abbrev canvas : Bounds
canvas = record {
  left = pos 5;
  top = pos 5;
  right = pos 805;
  bottom = pos 605;
  width = pos 800;
  height = pos 600;
}

abbrev idle : Pointer
idle = record {
  connected = true;
  view_only = false;
  extended_pointer_event_supported = true;
  drag_viewport = false;
  bounds = canvas;
  mouse_button_mask = 0;
  mouse_pos = at 0 0;
  mouse_move_timer = false;
  mouse_last_move_time = 0;
  viewport_dragging = false;
  viewport_drag_pos = at 0 0;
  viewport_has_moved = false;
  accumulated_wheel_delta_x = pos 0;
  accumulated_wheel_delta_y = pos 0;
  gesture_last_tap_time = none;
  gesture_first_double_tap_ev = record { gesture = onetap; client = at 0 0 };
  gesture_last_magnitude_x = pos 0;
  gesture_last_magnitude_y = pos 0;
  remote_caps_lock = none;
  remote_num_lock = none;
  sent = [];
}

abbrev sent_by : Result → List Sent
sent_by (returned p) = p.sent
sent_by (thrown p) = []
sent_by endless = []

abbrev pointer_of : Result → Pointer
pointer_of (returned p) = p
pointer_of (thrown p) = p
pointer_of endless = idle

-- The wheel, by 60 pixels down with the back button held.
wheel_down :
    sent_by (
      handle_wheel
        (record {
          client = at 15 25;
          buttons = 8;
          delta_x = pos 0;
          delta_y = pos 60;
          delta_mode = 0;
        })
        idle)
    ≡ extended_pointer (at 10 20) 128 ∷ extended_pointer (at 10 20) 144 ∷ []
unfolding handle_mouse handle_wheel wheel_x wheel_y handle_mouse_move handle_mouse_button
    flush_mouse_move_timer drag_to handle_gesture handle_tap_event tap_of fake_mouse_move scroll
    send_key handle_key_event send_mouse client_to_element ◌+ℤ◌ ◌-ℤ◌ ◌*ℤ◌
wheel_down = refl

-- With `dragViewport`, a press and a move of the mouse move the viewport and send nothing.
viewport_dragged :
    sent_by (
      then_do
        (handle_mouse 10
          (record { type = mousedown; client = at 105 105; buttons = 1 })
          0
          (record idle { drag_viewport = true }))
        (handle_mouse 10 (record { type = mousemove; client = at 85 105; buttons = 1 }) 40))
    ≡ viewport (pos 20) (pos 0) ∷ []
unfolding handle_mouse handle_wheel wheel_x wheel_y handle_mouse_move handle_mouse_button
    flush_mouse_move_timer drag_to handle_gesture handle_tap_event tap_of fake_mouse_move scroll
    send_key handle_key_event send_mouse client_to_element ◌+ℤ◌ ◌-ℤ◌ ◌*ℤ◌
viewport_dragged = refl

abbrev gesture : EventType → Gesture → ℤ → GestureInput
gesture type g m = record {
  type = type;
  gesture = g;
  client = at 15 25;
  magnitude_x = m;
  magnitude_y = pos 0;
}

-- A long press leaves the right button pressed when an earlier drag has moved the viewport.
stuck_button :
    (pointer_of (
      then_do
        (handle_gesture page
          (gesture gesturestart longpress (pos 0))
          2000
          (record idle { viewport_has_moved = true }))
        (handle_gesture page (gesture gestureend longpress (pos 0)) 2500))).mouse_button_mask
    ≡ 4
unfolding handle_mouse handle_wheel wheel_x wheel_y handle_mouse_move handle_mouse_button
    flush_mouse_move_timer drag_to handle_gesture handle_tap_event tap_of fake_mouse_move scroll
    send_key handle_key_event send_mouse client_to_element ◌+ℤ◌ ◌-ℤ◌ ◌*ℤ◌
stuck_button = refl

-- A pinch sends Caps Lock when the state of the remote lock is known, whatever it is.
pinch_locks :
    sent_by (
      handle_gesture page
        (gesture gesturemove pinch (pos 80))
        1
        (record idle { remote_caps_lock = some false; mouse_move_timer = true }))
    ≡ key 65507 false
      ∷ pointer (at 10 20) 0
      ∷ pointer (at 10 20) 8
      ∷ pointer (at 10 20) 0
      ∷ key 65507 true
      ∷ key 65509 false
      ∷ key 65509 true
      ∷ cursor (at 15 25)
      ∷ []
unfolding handle_mouse handle_wheel wheel_x wheel_y handle_mouse_move handle_mouse_button
    flush_mouse_move_timer drag_to handle_gesture handle_tap_event tap_of fake_mouse_move scroll
    send_key handle_key_event send_mouse client_to_element ◌+ℤ◌ ◌-ℤ◌ ◌*ℤ◌
pinch_locks = refl

abbrev handler_of : State.Result → Handler
handler_of (State.returned h) = h
handler_of (State.thrown e h) = h

abbrev contact : ℕ → ℕ → List Contact
contact x y = record { identifier = 7; client_x = pos x; client_y = pos y } ∷ []

abbrev down : State.Result
down = event_handler touchstart (contact 10 10) 0 (attach new_handler)

abbrev dragged : State.Result
dragged = event_handler touchmove (contact 90 10) 30 (handler_of down)

abbrev up : State.Result
up = event_handler touchend (contact 90 10) 90 (handler_of dragged)

go_on :
    (ids : List ℕ) (r : State.Result)
    → Reached true ids r
    → Reached true ids (State.returned (handler_of r))
go_on ids (State.returned h) p = p
go_on ids (State.thrown e h) p = absurd (reached-Sound true ids (State.thrown e h) p).holds

up-Reached : Reached true [] up
up-Reached =
    touched touchend (contact 90 10) 90 (7 ∷ []) (handler_of dragged)
      (go_on (7 ∷ []) dragged (
        touched touchmove (contact 90 10) 30 (7 ∷ []) (handler_of down)
          (go_on (7 ∷ []) down
            (touched touchstart (contact 10 10) 0 [] (attach new_handler) fresh (refl, tt)))
          tt))
      (refl, tt)

abbrev pixels : Fraction → ℤ
pixels f = f.total

touches_release_example :
    (q : Pointer) × (deliver page pixels (λ es. 100) (handler_of up).events idle ≡ returned q)
    × (q.mouse_button_mask ≡ 0)
touches_release_example =
    touches_release page pixels (λ es. 100) (handler_of up) idle (go_on [] up up-Reached) refl
      (λ e. refl)

handle_mouse_move-reported_example :
    (q : Pointer) × (then_do (handle_mouse_move (at 3 4) 10 idle) (settle 40) ≡ returned q)
    × Reports (at 3 4) 0 true q
handle_mouse_move-reported_example = handle_mouse_move-reported (at 3 4) 10 40 idle refl refl refl

-- a press of the middle button, and a turn of the wheel while it is down
abbrev inputs : List Input
inputs =
    mouse (record { type = mousedown; client = at 105 105; buttons = 4 }) 0
    ∷ wheel (record {
      client = at 105 105;
      buttons = 4;
      delta_x = pos 90;
      delta_y = pos 0;
      delta_mode = 0;
    })
    ∷ timer 20
    ∷ []

handle_inputs-HasLegalMask_example :
    (q : Pointer) × (handle_inputs 10 inputs idle ≡ returned q) × HasLegalMask q
handle_inputs-HasLegalMask_example =
    handle_inputs-HasLegalMask 10 inputs idle (record { legal = refl })
