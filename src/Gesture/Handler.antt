-- ===== src/Gesture/Handler.antt =====
-- The handlers of core/input/gesturehandler.js. `Date.now()` is an argument.
use proxmox_self_service_por.Prelude.{
  ℕ, ◌-◌, Bool, true, false, ◌&&◌, ◌||◌, Option, none, some, List, [], ◌∷◌, ◌++◌, ltb,
  if◌then◌else◌,
}
use proxmox_self_service_por.Prelude.Int.{ℤ}
use proxmox_self_service_por.Gesture.Flags.{
  Gesture, onetap, twotap, threetap, drag, longpress, twodrag, pinch, Flags, no_gesture, init_state,
  flag, meet, join, drop_flags, some_flag, is_single, state_to_gesture, invert,
}
use proxmox_self_service_por.Gesture.Touches.{
  Touch, new_touch, move_to, is_opposite, moved_less, moved_more, find, find_other, update,
  some_active, some_older, has, remove, is_nil, active_ids, Point, first_position, last_position,
  average_movement, whole, distance, is_pinching,
}
use proxmox_self_service_por.Gesture.State.{
  EventType, gesturestart, gesturemove, gestureend, Detail, GestureEvent, Handler,
  longpress_conflict, no_tracked_touches, unknown_state, no_target, undefined_touch, Result,
  returned, thrown, then_do, stop_longpress_timeout, start_longpress_timeout,
  stop_two_touch_timeout, start_two_touch_timeout, is_set,
}

abbrev pub taps : Flags
taps = join (flag onetap) (join (flag twotap) (flag threetap))

-- A tap is detected once no touch is active.
unfoldable pub has_detected_gesture : Handler → Bool
has_detected_gesture h =
    if is_single h.state
    then (if some_flag (meet h.state taps) then invert (some_active h.tracked) else true)
    else false

-- `this._state &= ~mask`
abbrev pub drop_state : Flags → Handler → Handler
drop_state mask h = record h { state = drop_flags h.state mask }

abbrev pub enter : Flags → Handler → Handler
enter s h = record h { state = s }

-- The position and the magnitude of an event.
abbrev pub client_of : EventType → Gesture → List Touch → Point
client_of gesturestart g ts = first_position ts
client_of type twodrag ts = first_position ts
client_of type pinch ts = first_position ts
client_of type g ts = last_position ts

abbrev pub magnitude_of : EventType → Gesture → Touch → List Touch → Option Point
magnitude_of gesturestart pinch t ts =
    let d = distance t ts in some (record { x = whole d.first_dx; y = whole d.first_dy })
magnitude_of type pinch t ts =
    let d = distance t ts in some (record { x = whole d.last_dx; y = whole d.last_dy })
magnitude_of gesturestart twodrag t ts = some (record { x = whole 0; y = whole 0 })
magnitude_of type twodrag t ts = some (average_movement (t ∷ ts))
magnitude_of type g t ts = none

abbrev pub detail_of : EventType → Gesture → Touch → List Touch → Detail
detail_of type g t ts = record {
  gesture = g;
  client = client_of type g (t ∷ ts);
  magnitude = magnitude_of type g t ts;
}

abbrev pub dispatch : GestureEvent → Handler → Result
dispatch e h =
    if h.attached then returned (record h { events = e ∷ h.events }) else thrown no_target h

abbrev pub push_named : EventType → Option Gesture → List Touch → Handler → Result
push_named type none ts h = thrown unknown_state h
push_named type (some g) [] h = thrown no_tracked_touches h
push_named type (some g) (t ∷ ts) h =
    dispatch (record { type = type; detail = detail_of type g t ts }) h

unfoldable pub push_event : EventType → Handler → Result
push_event type h = push_named type (state_to_gesture h.state) h.tracked h

unfoldable pub on_longpress_timeout : Handler → Result
unfolding push_event
on_longpress_timeout h =
    if has_detected_gesture h
    then thrown longpress_conflict h
    else push_event gesturestart (enter (flag longpress) h)

abbrev pub two_touch_on : List Touch → Handler → Result
two_touch_on [] h = thrown no_tracked_touches h
two_touch_on (t ∷ ts) h =
    let h' = enter (if is_pinching t ts then flag pinch else flag twodrag) h in
    then_do (push_event gesturestart h') (push_event gesturemove)

unfoldable pub on_two_touch_timeout : Handler → Result
on_two_touch_timeout h = two_touch_on h.tracked h

-- `_touchStart`
abbrev pub ignore : ℕ → Handler → Handler
ignore id h = record h { ignored = h.ignored ++ (id ∷ []) }

-- `GH_MULTITOUCH_TIMEOUT` is 250.
abbrev pub is_late : ℕ → List Touch → Bool
is_late now [] = false
is_late now (t ∷ ts) = ltb 250 (now - t.started)

-- the switch on the number of touches
abbrev pub count_touches : List Touch → Handler → Handler
count_touches (t ∷ []) h = start_longpress_timeout h
count_touches (t ∷ u ∷ []) h =
    stop_longpress_timeout (drop_state (join (flag onetap) (join (flag drag) (flag longpress))) h)
count_touches (t ∷ u ∷ v ∷ []) h =
    drop_state (join (flag twotap) (join (flag twodrag) (flag pinch))) h
count_touches ts h = enter no_gesture h

unfoldable pub touch_start : ℕ → ℤ → ℤ → ℕ → Handler → Result
touch_start id x y now h =
    let h' = record h { tracked = h.tracked ++ (new_touch id x y now ∷ []) } in
    if has_detected_gesture h || invert (some_flag h.state)
    then returned (ignore id h)
    else if is_late now h.tracked
    then returned (ignore id (enter no_gesture h))
    else if h.waiting_release
    then returned (ignore id (enter no_gesture h))
    else returned (count_touches h'.tracked h')

-- `_touchMove`. Two touches: what the angle between them says, or a timeout to wait for more.
abbrev pub choose_two : Touch → Touch → Handler → Handler
choose_two t u h =
    if moved_more u
    then stop_two_touch_timeout
        (drop_state (if is_opposite t u then flag twodrag else flag pinch) h)
    else if is_set h.two_touch_timeout
    then h
    else start_two_touch_timeout h

abbrev pub choose_other : Touch → Option Touch → Handler → Result
choose_other t none h = thrown undefined_touch h
choose_other t (some u) h = returned (choose_two t u h)

-- what the number of touches leaves
abbrev pub drop_counted : List Touch → Handler → Handler
drop_counted (t ∷ []) h = drop_state (join (flag twodrag) (flag pinch)) h
drop_counted (t ∷ u ∷ []) h = drop_state (flag drag) h
drop_counted ts h = drop_state (join (flag twodrag) (flag pinch)) (drop_state (flag drag) h)

abbrev pub choose : ℕ → Touch → List Touch → Handler → Result
choose id t (u ∷ v ∷ []) h = choose_other t (find_other id (u ∷ v ∷ [])) h
choose id t ts h = returned h

unfoldable pub announce_move : Handler → Result
announce_move h =
    if has_detected_gesture h
    then then_do (push_event gesturestart h) (push_event gesturemove)
    else returned h

abbrev pub move_found : ℕ → Option Touch → Handler → Result
move_found id none h = returned h
move_found id (some t) h =
    if has_detected_gesture h
    then push_event gesturemove h
    else if moved_less t
    then returned h
    else (let h' = stop_longpress_timeout (drop_state (join taps (flag longpress)) h) in
        then_do (choose id t h.tracked (drop_counted h.tracked h')) announce_move)

unfoldable pub touch_move : ℕ → ℤ → ℤ → Handler → Result
unfolding move_to
touch_move id x y h =
    let ts = update id (move_to x y) h.tracked in
    move_found id (find id ts) (record h { tracked = ts })

-- `_touchEnd`
abbrev pub reset_if : Bool → Handler → Handler
reset_if true h = record h { state = init_state; waiting_release = false }
reset_if false h = h

-- its last part, from line 330 on
unfoldable pub clean_up : ℕ → Handler → Handler
clean_up id h =
    let ids = remove id (h.ignored ++ active_ids h.tracked) in
    reset_if (is_nil ids) (record h { ignored = ids; tracked = []; state = no_gesture })

abbrev pub end_gesture : ℕ → Handler → Result
end_gesture id h =
    if has_detected_gesture h
    then then_do (push_event gestureend h) (λ h'. returned (clean_up id h'))
    else returned (clean_up id h)

-- what the number of touches leaves of the taps
abbrev pub count_taps : List Touch → Handler → Handler
count_taps (t ∷ []) h = drop_state (join (flag twotap) (flag threetap)) h
count_taps (t ∷ u ∷ []) h = drop_state (join (flag onetap) (flag threetap)) h
count_taps ts h = h

abbrev pub wait_release : ℕ → Handler → Handler
wait_release now h =
    let h' = stop_longpress_timeout (
      drop_state (flag longpress)
        (drop_state (join (flag drag) (join (flag twodrag) (flag pinch))) h)) in
    if h'.waiting_release
    then h'
    else count_taps h'.tracked (record h' { release_start = now; waiting_release = true })

-- `GH_TAP_TIMEOUT` is 1000.
abbrev pub time_out : ℕ → Handler → Handler
time_out now h =
    if ltb 250 (now - h.release_start) || some_older 1000 now h.tracked
    then enter no_gesture h
    else h

unfoldable pub release : Touch → Touch
release t = record t { active = false }

abbrev pub release_found : ℕ → Option Touch → Handler → Result
release_found id none h = thrown undefined_touch h
release_found id (some t) h =
    let h' = record h { tracked = update id release h.tracked } in
    if has_detected_gesture h'
    then then_do (push_event gesturestart h') (end_gesture id)
    else if some_flag h'.state
    then returned h'
    else end_gesture id h'

abbrev pub is_untracked : List Touch → Bool
is_untracked [] = true
is_untracked (t ∷ ts) = false

abbrev pub end_ignored : ℕ → Handler → Handler
end_ignored id h =
    let ids = remove id h.ignored in
    reset_if (is_nil ids && is_untracked h.tracked) (record h { ignored = ids })

abbrev pub give_up_waiting : Handler → Handler
give_up_waiting h =
    if invert (has_detected_gesture h) && is_set h.two_touch_timeout
    then enter no_gesture (stop_two_touch_timeout h)
    else h

abbrev pub wait_if_open : ℕ → Handler → Handler
wait_if_open now h = if has_detected_gesture h then h else wait_release now h

abbrev pub end_waiting : ℕ → ℕ → Handler → Result
end_waiting id now h =
    if h.waiting_release
    then (let h' = time_out now h in release_found id (find id h'.tracked) h')
    else end_gesture id h

unfoldable pub touch_end : ℕ → ℕ → Handler → Result
touch_end id now h =
    if has id h.ignored
    then returned (end_ignored id h)
    else end_waiting id now (wait_if_open now (give_up_waiting h))

-- `_eventHandler`: an event with the touches that have changed
pub data TouchType : Type 0 where
  touchstart touchmove touchend touchcancel : TouchType

pub record Contact : Type 0 where
  pub identifier : ℕ
  pub client_x : ℤ
  pub client_y : ℤ

abbrev pub handle_touch : TouchType → Contact → ℕ → Handler → Result
handle_touch touchstart c now h = touch_start c.identifier c.client_x c.client_y now h
handle_touch touchmove c now h = touch_move c.identifier c.client_x c.client_y h
handle_touch touchend c now h = touch_end c.identifier now h
handle_touch touchcancel c now h = touch_end c.identifier now h

abbrev pub event_handler : TouchType → List Contact → ℕ → Handler → Result
event_handler type [] now h = returned h
event_handler type (c ∷ cs) now h = then_do (handle_touch type c now h) (event_handler type cs now)
