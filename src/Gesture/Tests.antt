-- ===== src/Gesture/Tests.antt =====
-- Tests of the model of core/input/gesturehandler.js, and examples of the theorems.
use proxmox_self_service_por.Prelude.{ℕ, ◌≡◌, refl, true, false, some, List, [], ◌∷◌, map, arith}
use proxmox_self_service_por.Prelude.Int.{pos, ◌+ℤ◌, ◌-ℤ◌, ◌*ℤ◌}
use proxmox_self_service_por.Gesture.Flags.{
  Gesture, pinch, drag, longpress, flag, init_state, is_single, state_to_gesture, join,
}
use proxmox_self_service_por.Gesture.Touches.{is_pinching, move_to}
use proxmox_self_service_por.Gesture.State.{
  EventType, gesturestart, gesturemove, gestureend, unset, expired, GestureEvent, Handler, Result,
  returned, thrown, new_handler, attach, detach, then_do,
}
use proxmox_self_service_por.Gesture.Handler.{
  touchstart, touchmove, touchend, Contact, event_handler, has_detected_gesture, push_event,
  on_longpress_timeout, on_two_touch_timeout, touch_start, announce_move, touch_move, clean_up,
  release, touch_end,
}
use proxmox_self_service_por.Gesture.Stage.{handler, tell}
use proxmox_self_service_por.Gesture.Runs.{
  Reached, fresh, touched, longpress_due, two_touch_due, reached-Sound, never_throws,
  events_in_order, going_on,
}
use proxmox_self_service_por.Gesture.Taps.{
  is_some, tapped, tap_event, is_single-state_to_gesture, lone_tap, lost_tap,
}

abbrev handler_of : Result → Handler
handler_of (returned h) = h
handler_of (thrown e h) = h

abbrev contact : ℕ → ℕ → ℕ → List Contact
contact i x y = record { identifier = i; client_x = pos x; client_y = pos y } ∷ []

abbrev name_of : GestureEvent → EventType × Gesture
name_of e = (e.type, e.detail.gesture)

abbrev log : Handler → List (EventType × Gesture)
log h = map name_of h.events

-- Two touches, of which one moves by 60 pixels and the other stays; then the timeout comes.
abbrev one_down : Result
one_down = event_handler touchstart (contact 0 10 10) 0 (attach new_handler)

abbrev two_down : Result
two_down = event_handler touchstart (contact 1 40 10) 20 (handler_of one_down)

abbrev one_moved : Result
one_moved = event_handler touchmove (contact 1 100 10) 30 (handler_of two_down)

abbrev timeout_run : Result
timeout_run = on_two_touch_timeout (record (handler_of one_moved) { two_touch_timeout = expired })

abbrev one_up : Result
one_up = event_handler touchend (contact 1 100 10) 200 (handler_of timeout_run)

abbrev all_up : Result
all_up = event_handler touchend (contact 0 10 10) 210 (handler_of one_up)

log_all_up :
    log (handler_of all_up)
    ≡ (gestureend, pinch) ∷ (gesturemove, pinch) ∷ (gesturestart, pinch) ∷ []
unfolding touch_start touch_move touch_end move_to announce_move has_detected_gesture push_event
    on_longpress_timeout on_two_touch_timeout clean_up release is_single state_to_gesture
    is_pinching attach detach ◌+ℤ◌ ◌-ℤ◌ ◌*ℤ◌
log_all_up = refl

-- A result that is reached is no exception, so its handler is reached.
go_on :
    (down : List ℕ) (r : Result) → Reached true down r → Reached true down (returned (handler_of r))
go_on down (returned h) p = p
go_on down (thrown e h) p = absurd (reached-Sound true down (thrown e h) p).holds

one_down-Reached : Reached true (0 ∷ []) one_down
one_down-Reached = touched touchstart (contact 0 10 10) 0 [] (attach new_handler) fresh (refl, tt)

two_down-Reached : Reached true (1 ∷ 0 ∷ []) two_down
two_down-Reached =
    touched touchstart (contact 1 40 10) 20 (0 ∷ []) (handler_of one_down)
      (go_on (0 ∷ []) one_down one_down-Reached) (refl, tt)

one_moved-Reached : Reached true (1 ∷ 0 ∷ []) one_moved
one_moved-Reached =
    touched touchmove (contact 1 100 10) 30 (1 ∷ 0 ∷ []) (handler_of two_down)
      (go_on (1 ∷ 0 ∷ []) two_down two_down-Reached) tt

timeout_run-Reached : Reached true (1 ∷ 0 ∷ []) timeout_run
unfolding touch_start touch_move touch_end move_to announce_move has_detected_gesture push_event
    on_longpress_timeout on_two_touch_timeout clean_up release is_single state_to_gesture
    is_pinching attach detach ◌+ℤ◌ ◌-ℤ◌ ◌*ℤ◌
timeout_run-Reached =
    two_touch_due (1 ∷ 0 ∷ []) (handler_of one_moved)
      (go_on (1 ∷ 0 ∷ []) one_moved one_moved-Reached) refl (λ e. refl)

one_up-Reached : Reached true (0 ∷ []) one_up
one_up-Reached =
    touched touchend (contact 1 100 10) 200 (1 ∷ 0 ∷ []) (handler_of timeout_run)
      (go_on (1 ∷ 0 ∷ []) timeout_run timeout_run-Reached) (refl, tt)

all_up-Reached : Reached true [] all_up
all_up-Reached =
    touched touchend (contact 0 10 10) 210 (0 ∷ []) (handler_of one_up)
      (go_on (0 ∷ []) one_up one_up-Reached) (refl, tt)

-- A strict run is a run.
any-Reached : (down : List ℕ) (r : Result) → Reached true down r → Reached false down r
any-Reached down r fresh = fresh
any-Reached down r (touched type cs now d h p m) =
    touched type cs now d h (any-Reached d (returned h) p) m
any-Reached down r (longpress_due d h p e) = longpress_due d h (any-Reached d (returned h) p) e
any-Reached down r (two_touch_due d h p e q) =
    two_touch_due d h (any-Reached d (returned h) p) e (λ x. absurd (cc x))

never_throws_example : (h : Handler) × (all_up ≡ returned h)
never_throws_example = never_throws [] all_up (any-Reached [] all_up all_up-Reached)

events_in_order_example : tell (handler_of all_up).events ≡ some (going_on (handler_of all_up))
events_in_order_example = events_in_order [] (handler_of all_up) (go_on [] all_up all_up-Reached)

-- A touch that is held starts a long press.
log_long :
    log (
      handler_of (
        on_longpress_timeout
          (record (handler_of (event_handler touchstart (contact 0 10 10) 0 (attach new_handler))) {
            longpress_timeout = expired;
          })))
    ≡ (gesturestart, longpress) ∷ []
unfolding touch_start touch_move touch_end move_to announce_move has_detected_gesture push_event
    on_longpress_timeout on_two_touch_timeout clean_up release is_single state_to_gesture
    is_pinching attach detach ◌+ℤ◌ ◌-ℤ◌ ◌*ℤ◌
log_long = refl

-- One of two touches ends, the other moves, and the timeout of two touches comes: at the end of the
-- other touch the gesture starts a second time.
abbrev started_twice : Result
started_twice =
    let first_up = then_do two_down (event_handler touchend (contact 0 10 10) 100) in
    let moved_on = then_do first_up (event_handler touchmove (contact 1 100 10) 120) in
    then_do (on_two_touch_timeout (record (handler_of moved_on) { two_touch_timeout = expired }))
      (event_handler touchend (contact 1 100 10) 300)

log_started_twice :
    log (handler_of started_twice)
    ≡ (gestureend, pinch)
      ∷ (gesturestart, pinch)
      ∷ (gesturemove, pinch)
      ∷ (gesturestart, pinch)
      ∷ []
unfolding touch_start touch_move touch_end move_to announce_move has_detected_gesture push_event
    on_longpress_timeout on_two_touch_timeout clean_up release is_single state_to_gesture
    is_pinching attach detach ◌+ℤ◌ ◌-ℤ◌ ◌*ℤ◌
log_started_twice = refl

lone_tap_example :
    tapped 0 (pos 10) (pos 20) 100 300 (handler init_state [] [] false 0 unset unset [])
    ≡ returned (
        handler init_state [] [] false 300 unset unset
          (tap_event gestureend (pos 10) (pos 20) ∷ tap_event gesturestart (pos 10) (pos 20) ∷ []))
lone_tap_example = lone_tap 0 (pos 10) (pos 20) 100 300 0 unset [] (omega arith)

lost_tap_example :
    tapped 0 (pos 10) (pos 20) 100 300 (handler init_state [] [] false 0 unset expired [])
    ≡ returned (handler init_state [] [] false 300 unset unset [])
lost_tap_example = lost_tap 0 (pos 10) (pos 20) 100 300 0 unset []

is_single-state_to_gesture_example :
    is_single (join (flag drag) (flag pinch))
    ≡ is_some (state_to_gesture (join (flag drag) (flag pinch)))
is_single-state_to_gesture_example = is_single-state_to_gesture (join (flag drag) (flag pinch))
