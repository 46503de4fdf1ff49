-- ===== src/Pointer/Legal.antt =====
-- The masks that the mouse and wheel handlers of core/rfb.js send.
use proxmox_self_service_por.Prelude.{
  ℕ, ◌+◌, ◌-◌, ◌/◌, ◌%◌, ◌<◌, ◌≡◌, Bool, true, false, ◌&&◌, ◌||◌, List, [], ◌∷◌, ◌==◌, ltb, leb,
  arith, if◌then◌else◌,
}
use proxmox_self_service_por.Prelude.Int.{ℤ, pos, ltb_ℤ, ◌-ℤ◌}
use proxmox_self_service_por.Gesture.Touches.{abs}
use proxmox_self_service_por.Pointer.State.{
  Position, viewport, Pointer, Result, returned, then_do, change, call, send_mouse,
  client_to_element, convert_button_mask,
}
use proxmox_self_service_por.Pointer.Mouse.{
  flush_mouse_move_timer, set_mask, handle_mouse_button, handle_mouse_move,
  handle_delayed_mouse_move, drag_to, MouseEvent, MouseType, click, contextmenu, mousedown, mouseup,
  mousemove, press, glide, mouse_at, handle_mouse, WheelEvent, click_with, step_wheel, wheel_x,
  wheel_y, accumulate, handle_wheel,
}
use proxmox_self_service_por.Pointer.Touches.{settle, returned_with}
use proxmox_self_service_por.Pointer.Keeps.{
  EndsIn, returned-EndsIn, if-EndsIn, then-EndsIn, IsLegal,
}

pub record HasLegalMask (p : Pointer) : Type 0 where
  pub legal : IsLegal p.mouse_button_mask

abbrev Fine : Result → Type 0
Fine r = EndsIn HasLegalMask r

-- Every set of buttons, with one of the wheel's.
convert-IsLegal : (buttons : ℕ) → IsLegal (convert_button_mask buttons)
convert-IsLegal buttons = omega arith

convert_wheel-IsLegal : (buttons k : ℕ) → k < 65 → IsLegal (convert_button_mask buttons + k)
convert_wheel-IsLegal buttons k h = omega arith

if_legal :
    {x y : Pointer} (b : Bool) → HasLegalMask x → HasLegalMask y → HasLegalMask (if b then x else y)
if_legal true h k = h
if_legal false h k = k

drag_legal :
    (threshold : ℕ) (at : Position) (p : Pointer)
    → HasLegalMask p
    → HasLegalMask (drag_to threshold at p)
unfolding drag_to
drag_legal threshold at p h =
    let dx = p.viewport_drag_pos.x -ℤ at.x in
    let dy = p.viewport_drag_pos.y -ℤ at.y in
    let p' =
      call (viewport dx dy) (record p { viewport_has_moved = true; viewport_drag_pos = at }) in
    if_legal {x = p'} {y = p}
      (p.viewport_has_moved || ltb threshold (abs dx) || ltb threshold (abs dy))
      (record { legal = h.legal }) h

module _ (at : Position) where
  send-Fine : (mask : ℕ) (p : Pointer) → IsLegal mask → HasLegalMask p → Fine (send_mouse at mask p)
  unfolding send_mouse
  send-Fine mask p l k =
      let legal : (mask / 32768 % 2 == 0) ≡ true = ground arith in
      if-EndsIn p.connected
        (if-EndsIn p.view_only (returned-EndsIn k)
          (rw legal (returned-EndsIn (record { legal = k.legal }))))
        (returned-EndsIn k)

  flush-Fine : (p : Pointer) → HasLegalMask p → Fine (flush_mouse_move_timer at p)
  unfolding flush_mouse_move_timer
  flush-Fine p k =
      if-EndsIn p.mouse_move_timer
        (send-Fine p.mouse_button_mask (record p { mouse_move_timer = false }) k.legal
          (record { legal = k.legal }))
        (returned-EndsIn k)

  button-Fine :
      (mask : ℕ) (p : Pointer)
      → IsLegal mask
      → HasLegalMask p
      → Fine (handle_mouse_button at mask p)
  unfolding handle_mouse_button
  button-Fine mask p l k =
      then-EndsIn (then_do (flush_mouse_move_timer at p) (change (set_mask mask)))
        (send_mouse at mask)
        (then-EndsIn (flush_mouse_move_timer at p) (change (set_mask mask)) (flush-Fine p k)
          (λ q k'. returned-EndsIn (record { legal = l })))
        (λ q k'. send-Fine mask q l k')

  move-Fine : (now : ℕ) (p : Pointer) → HasLegalMask p → Fine (handle_mouse_move at now p)
  unfolding handle_mouse_move
  move-Fine now p k =
      let p' = record p { mouse_pos = at } in
      if-EndsIn p.mouse_move_timer (returned-EndsIn (record { legal = k.legal })) (
        if-EndsIn (ltb 17 (now - p.mouse_last_move_time))
          (then-EndsIn (send_mouse at p.mouse_button_mask p')
            (λ q. returned (record q { mouse_last_move_time = now }))
            (send-Fine p.mouse_button_mask p' k.legal (record { legal = k.legal }))
            (λ q k'. returned-EndsIn (record { legal = k'.legal })))
          (returned-EndsIn (record { legal = k.legal })))

  click-Fine :
      (buttons k : ℕ) (p : Pointer)
      → k < 65
      → HasLegalMask p
      → Fine (click_with at (convert_button_mask buttons) k p)
  click-Fine buttons k p s h =
      let mask = convert_button_mask buttons in
      then-EndsIn (handle_mouse_button at (mask + k) p) (handle_mouse_button at mask)
        (button-Fine (mask + k) p (convert_wheel-IsLegal buttons k s) h)
        (λ q h'. button-Fine mask q (convert-IsLegal buttons) h')

  step-Fine :
      (buttons : ℕ) (delta : ℤ) (less more : ℕ) (p : Pointer)
      → less < 65
      → more < 65
      → HasLegalMask p
      → Fine (step_wheel at (convert_button_mask buttons) delta less more p)
  step-Fine buttons delta less more p s t h = go (ltb_ℤ delta (pos 0)) (ltb_ℤ (pos 0) delta)
    where
      go :
          (a b : Bool)
          → (let f : Pointer → Result =
                if a
                then click_with at (convert_button_mask buttons) less
                else if b
                then click_with at (convert_button_mask buttons) more
                else returned in
              Fine (f p))
      go true b = click-Fine buttons less p s h
      go false true = click-Fine buttons more p t h
      go false false = returned-EndsIn h

  press-Fine :
      (down : Bool) (mask : ℕ) (p : Pointer)
      → IsLegal mask
      → HasLegalMask p
      → Fine (press down at mask p)
  press-Fine down mask p l k =
      let p₁ = record p {
        viewport_dragging = true;
        viewport_drag_pos = at;
        viewport_has_moved = false;
      } in
      let p₂ = record p { viewport_dragging = false } in
      if-EndsIn p.drag_viewport
        (if-EndsIn (down && (if p.viewport_dragging then false else true))
          (then-EndsIn (flush_mouse_move_timer at p₁) (change (set_mask mask))
            (flush-Fine p₁ (record { legal = k.legal }))
            (λ q k'. returned-EndsIn (record { legal = l })))
          (if-EndsIn p.viewport_has_moved (returned-EndsIn (record { legal = l })) (
            then-EndsIn (send_mouse at p.mouse_button_mask p₂) (handle_mouse_button at mask)
              (send-Fine p.mouse_button_mask p₂ k.legal (record { legal = k.legal }))
              (λ q k'. button-Fine mask q l k'))))
        (button-Fine mask p l k)

  glide-Fine : (threshold now : ℕ) (p : Pointer) → HasLegalMask p → Fine (glide threshold at now p)
  glide-Fine threshold now p k =
      if-EndsIn p.viewport_dragging (returned-EndsIn (drag_legal threshold at p k))
        (move-Fine now p k)

  wheel_x-Fine :
      (buttons : ℕ) (p : Pointer)
      → HasLegalMask p
      → Fine (wheel_x at (convert_button_mask buttons) p)
  unfolding wheel_x
  wheel_x-Fine buttons p h =
      let d = p.accumulated_wheel_delta_x in
      if-EndsIn (leb 50 (abs d))
        (then-EndsIn (step_wheel at (convert_button_mask buttons) d 32 64 p)
          (λ q. returned (record q { accumulated_wheel_delta_x = pos 0 }))
          (step-Fine buttons d 32 64 p (omega arith) (omega arith) h)
          (λ q h'. returned-EndsIn (record { legal = h'.legal })))
        (returned-EndsIn h)

  wheel_y-Fine :
      (buttons : ℕ) (p : Pointer)
      → HasLegalMask p
      → Fine (wheel_y at (convert_button_mask buttons) p)
  unfolding wheel_y
  wheel_y-Fine buttons p h =
      let d = p.accumulated_wheel_delta_y in
      if-EndsIn (leb 50 (abs d))
        (then-EndsIn (step_wheel at (convert_button_mask buttons) d 8 16 p)
          (λ q. returned (record q { accumulated_wheel_delta_y = pos 0 }))
          (step-Fine buttons d 8 16 p (omega arith) (omega arith) h)
          (λ q h'. returned-EndsIn (record { legal = h'.legal })))
        (returned-EndsIn h)

wheel-Fine : (e : WheelEvent) (p : Pointer) → HasLegalMask p → Fine (handle_wheel e p)
unfolding handle_wheel
wheel-Fine e p h =
    let at = client_to_element e.client p.bounds in
    let p' = accumulate e p in
    if-EndsIn (p.connected && (if p.view_only then false else true))
      (then-EndsIn (wheel_x at (convert_button_mask e.buttons) p')
        (wheel_y at (convert_button_mask e.buttons))
        (wheel_x-Fine at e.buttons p' (record { legal = h.legal })) (wheel_y-Fine at e.buttons))
      (returned-EndsIn h)

mouse_at-Fine :
    (threshold : ℕ) (type : MouseType) (at : Position) (mask now : ℕ) (p : Pointer)
    → IsLegal mask
    → HasLegalMask p
    → Fine (mouse_at threshold type at mask now p)
mouse_at-Fine threshold click at mask now p l h = returned-EndsIn h
mouse_at-Fine threshold contextmenu at mask now p l h = returned-EndsIn h
mouse_at-Fine threshold mousedown at mask now p l h = press-Fine at true mask p l h
mouse_at-Fine threshold mouseup at mask now p l h = press-Fine at false mask p l h
mouse_at-Fine threshold mousemove at mask now p l h = glide-Fine at threshold now p h

settle-Fine : (now : ℕ) (p : Pointer) → HasLegalMask p → Fine (settle now p)
unfolding handle_delayed_mouse_move
settle-Fine now p h =
    let p' = record p { mouse_move_timer = false } in
    if-EndsIn p.mouse_move_timer
      (then-EndsIn (send_mouse p.mouse_pos p.mouse_button_mask p')
        (λ q. returned (record q { mouse_last_move_time = now }))
        (send-Fine p.mouse_pos p.mouse_button_mask p' h.legal (record { legal = h.legal }))
        (λ q h'. returned-EndsIn (record { legal = h'.legal })))
      (returned-EndsIn h)

-- What the mouse may do: its events, those of its wheel, and the timer of a delayed move.
pub data Input : Type 0 where
  mouse : MouseEvent → ℕ → Input
  wheel : WheelEvent → Input
  timer : ℕ → Input

abbrev pub handle_input : ℕ → Input → Pointer → Result
handle_input threshold (mouse e now) p = handle_mouse threshold e now p
handle_input threshold (wheel e) p = handle_wheel e p
handle_input threshold (timer now) p = settle now p

abbrev pub handle_inputs : ℕ → List Input → Pointer → Result
handle_inputs threshold [] p = returned p
handle_inputs threshold (i ∷ is) p =
    then_do (handle_input threshold i p) (handle_inputs threshold is)

input-Fine :
    (threshold : ℕ) (i : Input) (p : Pointer) → HasLegalMask p → Fine (handle_input threshold i p)
unfolding handle_mouse
input-Fine threshold (mouse e now) p h =
    mouse_at-Fine threshold e.type (client_to_element e.client p.bounds)
      (convert_button_mask e.buttons) now p (convert-IsLegal e.buttons) h
input-Fine threshold (wheel e) p h = wheel-Fine e p h
input-Fine threshold (timer now) p h = settle-Fine now p h

inputs-Fine :
    (threshold : ℕ) (is : List Input) (p : Pointer)
    → HasLegalMask p
    → Fine (handle_inputs threshold is p)
inputs-Fine threshold [] p h = returned-EndsIn h
inputs-Fine threshold (i ∷ is) p h =
    then-EndsIn (handle_input threshold i p) (handle_inputs threshold is)
      (input-Fine threshold i p h) (inputs-Fine threshold is)

-- The error "Illegal mouse button mask" is never raised: whatever buttons, moves and turns of the wheel
-- come, in any order, with the timers between, each handler returns, if the mask was legal at first.
pub handle_inputs-HasLegalMask :
    (threshold : ℕ) (is : List Input) (p : Pointer)
    → HasLegalMask p
    → (q : Pointer) × (handle_inputs threshold is p ≡ returned q) × HasLegalMask q
handle_inputs-HasLegalMask threshold is p h =
    returned_with (handle_inputs threshold is p) (inputs-Fine threshold is p h)
