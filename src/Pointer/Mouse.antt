-- ===== src/Pointer/Mouse.antt =====
-- The mouse and the wheel: `_handleMouse`, `_handleWheel` and what they call, of core/rfb.js.
-- `Date.now()` is an argument.
use proxmox_self_service_por.Prelude.{
  ℕ, ◌+◌, ◌-◌, Bool, true, false, ◌&&◌, ◌||◌, ◌==◌, ltb, leb, if◌then◌else◌,
}
use proxmox_self_service_por.Prelude.Int.{ℤ, pos, ◌+ℤ◌, ◌-ℤ◌, ◌*ℤ◌, ltb_ℤ}
use proxmox_self_service_por.Gesture.Touches.{abs}
use proxmox_self_service_por.Pointer.State.{
  Position, viewport, Pointer, Result, returned, then_do, ◌>>◌, change, call, client_to_element,
  convert_button_mask, send_mouse,
}

unfoldable pub flush_mouse_move_timer : Position → Pointer → Result
flush_mouse_move_timer at p =
    if p.mouse_move_timer
    then send_mouse at p.mouse_button_mask (record p { mouse_move_timer = false })
    else returned p

abbrev pub set_mask : ℕ → Pointer → Pointer
set_mask mask p = record p { mouse_button_mask = mask }

unfoldable pub handle_mouse_button : Position → ℕ → Pointer → Result
handle_mouse_button at mask =
    flush_mouse_move_timer at >> change (set_mask mask) >> send_mouse at mask

-- `MOUSE_MOVE_DELAY` is 17.
unfoldable pub handle_mouse_move : Position → ℕ → Pointer → Result
handle_mouse_move at now p =
    let p' = record p { mouse_pos = at } in
    if p.mouse_move_timer
    then returned p'
    else if ltb 17 (now - p.mouse_last_move_time)
    then then_do (send_mouse at p.mouse_button_mask p')
        (λ q. returned (record q { mouse_last_move_time = now }))
    else returned (record p' { mouse_move_timer = true })

unfoldable pub handle_delayed_mouse_move : ℕ → Pointer → Result
handle_delayed_mouse_move now p =
    then_do (send_mouse p.mouse_pos p.mouse_button_mask (record p { mouse_move_timer = false }))
      (λ q. returned (record q { mouse_last_move_time = now }))

-- The viewport follows a drag once it is more than the threshold away.
unfoldable pub drag_to : ℕ → Position → Pointer → Pointer
drag_to drag_threshold at p =
    let dx = p.viewport_drag_pos.x -ℤ at.x in
    let dy = p.viewport_drag_pos.y -ℤ at.y in
    if p.viewport_has_moved || ltb drag_threshold (abs dx) || ltb drag_threshold (abs dy)
    then call (viewport dx dy) (record p { viewport_has_moved = true; viewport_drag_pos = at })
    else p

pub data MouseType : Type 0 where
  click contextmenu mousedown mouseup mousemove : MouseType

pub record MouseEvent : Type 0 where
  pub type : MouseType
  pub client : Position
  pub buttons : ℕ

-- `case 'mousedown'` and `case 'mouseup'`
abbrev pub press : Bool → Position → ℕ → Pointer → Result
press down at mask p =
    if p.drag_viewport
    then (if down && (if p.viewport_dragging then false else true)
        then (let p' = record p {
          viewport_dragging = true;
          viewport_drag_pos = at;
          viewport_has_moved = false;
        } in
            then_do (flush_mouse_move_timer at p') (change (set_mask mask)))
        else (let p' = record p { viewport_dragging = false } in
            if p.viewport_has_moved
            then returned (set_mask mask p')
            else then_do (send_mouse at p.mouse_button_mask p') (handle_mouse_button at mask)))
    else handle_mouse_button at mask p

-- `case 'mousemove'`
abbrev pub glide : ℕ → Position → ℕ → Pointer → Result
glide drag_threshold at now p =
    if p.viewport_dragging
    then returned (drag_to drag_threshold at p)
    else handle_mouse_move at now p

abbrev pub mouse_at : ℕ → MouseType → Position → ℕ → ℕ → Pointer → Result
mouse_at drag_threshold click at mask now p = returned p
mouse_at drag_threshold contextmenu at mask now p = returned p
mouse_at drag_threshold mousedown at mask now p = press true at mask p
mouse_at drag_threshold mouseup at mask now p = press false at mask p
mouse_at drag_threshold mousemove at mask now p = glide drag_threshold at now p

unfoldable pub handle_mouse : ℕ → MouseEvent → ℕ → Pointer → Result
handle_mouse drag_threshold e now p =
    mouse_at drag_threshold e.type (client_to_element e.client p.bounds)
      (convert_button_mask e.buttons) now p

pub record WheelEvent : Type 0 where
  pub client : Position
  pub buttons : ℕ
  pub delta_x : ℤ
  pub delta_y : ℤ
  pub delta_mode : ℕ

-- A click of a button that has no bit in `mask`.
abbrev pub click_with : Position → ℕ → ℕ → Pointer → Result
click_with at mask button = handle_mouse_button at (mask + button) >> handle_mouse_button at mask

abbrev pub step_wheel : Position → ℕ → ℤ → ℕ → ℕ → Pointer → Result
step_wheel at mask delta less more =
    if ltb_ℤ delta (pos 0)
    then click_with at mask less
    else if ltb_ℤ (pos 0) delta
    then click_with at mask more
    else returned

-- `WHEEL_STEP` is 50; the bits of the steps are 1 << 5, 1 << 6, 1 << 3 and 1 << 4.
unfoldable pub wheel_x : Position → ℕ → Pointer → Result
wheel_x at mask p =
    if leb 50 (abs p.accumulated_wheel_delta_x)
    then then_do (step_wheel at mask p.accumulated_wheel_delta_x 32 64 p)
        (λ q. returned (record q { accumulated_wheel_delta_x = pos 0 }))
    else returned p

unfoldable pub wheel_y : Position → ℕ → Pointer → Result
wheel_y at mask p =
    if leb 50 (abs p.accumulated_wheel_delta_y)
    then then_do (step_wheel at mask p.accumulated_wheel_delta_y 8 16 p)
        (λ q. returned (record q { accumulated_wheel_delta_y = pos 0 }))
    else returned p

-- `WHEEL_LINE_HEIGHT` is 19.
abbrev pub in_pixels : ℕ → ℤ → ℤ
in_pixels mode d = if mode == 0 then d else d *ℤ pos 19

abbrev pub accumulate : WheelEvent → Pointer → Pointer
accumulate e p = record p {
  accumulated_wheel_delta_x = p.accumulated_wheel_delta_x +ℤ in_pixels e.delta_mode e.delta_x;
  accumulated_wheel_delta_y = p.accumulated_wheel_delta_y +ℤ in_pixels e.delta_mode e.delta_y;
}

unfoldable pub handle_wheel : WheelEvent → Pointer → Result
handle_wheel e p =
    let at = client_to_element e.client p.bounds in
    let mask = convert_button_mask e.buttons in
    if p.connected && (if p.view_only then false else true)
    then then_do (wheel_x at mask (accumulate e p)) (wheel_y at mask)
    else returned p
