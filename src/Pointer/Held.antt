-- ===== src/Pointer/Held.antt =====
-- The buttons that a gesture holds in `_handleGesture` of core/rfb.js, and the starts of gestures.
use proxmox_self_service_por.Prelude.{
  ℕ, ◌≡◌, ◌∙◌, refl, sym, ap, Bool, true, false, ◌||◌, Option, none, some, ltb, arith,
  if◌then◌else◌,
}
use proxmox_self_service_por.Prelude.Int.{ℤ, ◌-ℤ◌}
use proxmox_self_service_por.Gesture.Flags.{
  Gesture, onetap, twotap, threetap, drag, longpress, twodrag, pinch,
}
use proxmox_self_service_por.Gesture.Touches.{abs}
use proxmox_self_service_por.Pointer.State.{
  Position, viewport, call, Tap, Pointer, ◌>>◌, client_to_element,
}
use proxmox_self_service_por.Pointer.Mouse.{handle_mouse_button, drag_to}
use proxmox_self_service_por.Pointer.Gestures.{
  GestureInput, Page, handle_tap_event, tap_of, fake_mouse_move, click_at, start_gesture,
}
use proxmox_self_service_por.Pointer.Keeps.{
  Keeps, EndsIn, returned-EndsIn, either-EndsIn, then-EndsIn, weaken-EndsIn, IsLegal, recast,
  button-Keeps, fake_move-Keeps, click-Keeps,
}

-- The buttons that are pressed while a gesture goes on.
abbrev pub held_mask : Bool → Option Gesture → ℕ
held_mask dragging none = 0
held_mask dragging (some drag) = if dragging then 0 else 1
held_mask dragging (some longpress) = if dragging then 0 else 4
held_mask dragging (some g) = 0

pub record IsHeldBy (dragging : Bool) (o : Option Gesture) (p : Pointer) : Type 0 where
  pub drag_viewport : p.drag_viewport ≡ dragging
  pub mask : p.mouse_button_mask ≡ held_mask dragging o
  pub unmoved : dragging ≡ false → p.viewport_has_moved ≡ false

module _ {dragging : Bool} where
  pub to_Keeps :
      {o : Option Gesture} (p : Pointer)
      → IsHeldBy dragging o p
      → Keeps dragging
          (held_mask dragging o)
          p.gesture_last_magnitude_x
          p.gesture_last_magnitude_y
          p
  to_Keeps p h = record {
    drag_viewport = h.drag_viewport;
    mask = h.mask;
    magnitude_x = refl;
    magnitude_y = refl;
    unmoved = h.unmoved;
  }

  pub from_Keeps :
      {x y : ℤ} (m : ℕ) (o : Option Gesture)
      → m ≡ held_mask dragging o
      → (p : Pointer) → Keeps dragging m x y p
      → IsHeldBy dragging o p
  from_Keeps m o e p k = record {
    drag_viewport = k.drag_viewport;
    mask = k.mask ∙ e;
    unmoved = k.unmoved;
  }

if-held :
    {dragging : Bool} {o : Option Gesture} {x y : Pointer} (b : Bool)
    → IsHeldBy dragging o x
    → IsHeldBy dragging o y
    → IsHeldBy dragging o (if b then x else y)
if-held true h k = h
if-held false h k = k

pub drag_to-held :
    {dragging : Bool} {o : Option Gesture} (threshold : ℕ) (at : Position) (p : Pointer)
    → dragging ≡ true
    → IsHeldBy dragging o p
    → IsHeldBy dragging o (drag_to threshold at p)
unfolding drag_to
drag_to-held threshold at p d h =
    let dx = p.viewport_drag_pos.x -ℤ at.x in
    let dy = p.viewport_drag_pos.y -ℤ at.y in
    let far = p.viewport_has_moved || ltb threshold (abs dx) || ltb threshold (abs dy) in
    let p' =
      call (viewport dx dy) (record p { viewport_has_moved = true; viewport_drag_pos = at }) in
    if-held {x = p'} {y = p} far
      (record { drag_viewport = h.drag_viewport; mask = h.mask; unmoved = λ x. absurd (cc (d, x)) })
      h

pub held_mask-IsLegal : (dragging : Bool) (g : Gesture) → IsLegal (held_mask dragging (some g))
held_mask-IsLegal true g = ground arith
held_mask-IsLegal false g = ground arith

module _ (dragging : Bool) (page : Page) (e : GestureInput) (at : Position) (now : ℕ) where
  tap-held :
      (t : Tap) (button : ℕ) (g : Gesture) (p : Pointer)
      → 0 ≡ held_mask dragging (some g)
      → IsLegal button
      → IsHeldBy dragging none p
      → EndsIn (IsHeldBy dragging (some g)) (handle_tap_event t button now p)
  unfolding handle_tap_event
  tap-held t button g p z l h =
      let first = tap_of t now p in
      let place = client_to_element first.client p.bounds in
      let p' = record p { gesture_first_double_tap_ev = first; gesture_last_tap_time = some now } in
      let x = p.gesture_last_magnitude_x in
      let y = p.gesture_last_magnitude_y in
      let k = recast p p' refl refl refl refl 0 h.mask (to_Keeps p h) in
      then-EndsIn (fake_mouse_move first.client place now p') (click_at place button)
        (fake_move-Keeps dragging 0 x y first.client place now p' refl k)
        (λ q k'.
          weaken-EndsIn (click_at place button q)
            (click-Keeps dragging x y 0 button place q refl l k') (from_Keeps 0 (some g) z))

  -- a move of the mouse, with a click or a press of a button after it
  pub moves :
      (m : ℕ) (x y : ℤ) (p : Pointer)
      → IsLegal m
      → Keeps dragging m x y p
      → EndsIn (Keeps dragging m x y) (fake_mouse_move e.client at now p)
  moves m x y p l k = fake_move-Keeps dragging m x y e.client at now p l k

  pub presses :
      (m button : ℕ) (o : Option Gesture) (p : Pointer)
      → IsLegal m
      → IsLegal button
      → button ≡ held_mask dragging o
      → Keeps dragging m p.gesture_last_magnitude_x p.gesture_last_magnitude_y p
      → EndsIn
          (IsHeldBy dragging o)
          ((fake_mouse_move e.client at now >> handle_mouse_button at button) p)
  presses m button o p l l' z k =
      let x = p.gesture_last_magnitude_x in
      let y = p.gesture_last_magnitude_y in
      then-EndsIn (fake_mouse_move e.client at now p) (handle_mouse_button at button)
        (moves m x y p l k)
        (λ q k'.
          weaken-EndsIn (handle_mouse_button at button q)
            (button-Keeps dragging m x y at button q l l' k') (from_Keeps button o z))

  -- what `drag_viewport` is, in the branch that it chooses
  pub chosen :
      (f : Bool → ℕ) (b : Bool) (p : Pointer)
      → p.drag_viewport ≡ b
      → p.drag_viewport ≡ dragging
      → f b ≡ f dragging
  chosen f b p c d = ap f (sym c ∙ d)

  pub started :
      (g : Gesture) (p : Pointer)
      → IsHeldBy dragging none p
      → EndsIn (IsHeldBy dragging (some g)) (start_gesture page e at now g p)
  started onetap p h =
      tap-held (record { gesture = e.gesture; client = e.client }) 1 onetap p refl refl h
  started twotap p h =
      tap-held (record { gesture = e.gesture; client = e.client }) 4 twotap p refl refl h
  started threetap p h =
      tap-held (record { gesture = e.gesture; client = e.client }) 2 threetap p refl refl h
  started drag p h =
      let f = λ (d : Bool). held_mask d (some drag) in
      either-EndsIn p.drag_viewport
        (λ c. returned-EndsIn (record {
          drag_viewport = h.drag_viewport;
          mask = h.mask ∙ chosen f true p c h.drag_viewport;
          unmoved = λ x. refl;
        }))
        (λ c.
          presses 0 1 (some drag) p refl refl (chosen f false p c h.drag_viewport) (to_Keeps p h))
  started longpress p h =
      let f = λ (d : Bool). held_mask d (some longpress) in
      either-EndsIn p.drag_viewport
        (λ c. returned-EndsIn (record {
          drag_viewport = h.drag_viewport;
          mask = h.mask ∙ chosen f true p c h.drag_viewport;
          unmoved = λ x. refl;
        }))
        (λ c.
          presses 0 4 (some longpress) p refl refl (chosen f false p c h.drag_viewport)
            (to_Keeps p h))
  started twodrag p h =
      let p' = record p {
        gesture_last_magnitude_x = e.magnitude_x;
        gesture_last_magnitude_y = e.magnitude_y;
      } in
      let k : Keeps dragging 0 e.magnitude_x e.magnitude_y p' = record {
        drag_viewport = h.drag_viewport;
        mask = h.mask;
        magnitude_x = refl;
        magnitude_y = refl;
        unmoved = h.unmoved;
      } in
      weaken-EndsIn (fake_mouse_move e.client at now p')
        (moves 0 e.magnitude_x e.magnitude_y p' refl k) (from_Keeps 0 (some twodrag) refl)
  started pinch p h =
      let m = page.hypot e.magnitude_x e.magnitude_y in
      let p' = record p { gesture_last_magnitude_x = m } in
      let k : Keeps dragging 0 m p.gesture_last_magnitude_y p' = record {
        drag_viewport = h.drag_viewport;
        mask = h.mask;
        magnitude_x = refl;
        magnitude_y = refl;
        unmoved = h.unmoved;
      } in
      weaken-EndsIn (fake_mouse_move e.client at now p')
        (moves 0 m p.gesture_last_magnitude_y p' refl k) (from_Keeps 0 (some pinch) refl)
