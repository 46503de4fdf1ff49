-- ===== src/Pointer/Turns.antt =====
-- The moves and the ends of gestures in `_handleGesture` of core/rfb.js.
use proxmox_self_service_por.Prelude.{
  ℕ, ◌≡◌, ◌∙◌, refl, sym, ap, Bool, true, false, none, some, ltb, arith, Bool-cases, inl, inr,
}
use proxmox_self_service_por.Prelude.Int.{ℤ, ◌-ℤ◌}
use proxmox_self_service_por.Gesture.Flags.{
  Gesture, onetap, twotap, threetap, drag, longpress, twodrag, pinch,
}
use proxmox_self_service_por.Gesture.Touches.{abs}
use proxmox_self_service_por.Pointer.State.{Position, Pointer, ◌>>◌, change}
use proxmox_self_service_por.Pointer.Mouse.{drag_to}
use proxmox_self_service_por.Pointer.Gestures.{
  GestureInput, Page, fake_mouse_move, click_at, scroll_forth_x, scroll_back_x, scroll_forth_y,
  scroll_back_y, move_gesture, end_gesture, zoom, control_key, drag_view,
}
use proxmox_self_service_por.Pointer.Keeps.{
  EndsIn, returned-EndsIn, if-EndsIn, either-EndsIn, then-EndsIn, weaken-EndsIn, click-Keeps,
  control_key-Keeps,
}
use proxmox_self_service_por.Pointer.Scrolls.{
  IsOpen, closed_of, forth_x-IsOpen, back_x-IsOpen, forth_y-IsOpen, back_y-IsOpen,
}
use proxmox_self_service_por.Pointer.Held.{
  IsHeldBy, chosen, drag_to-held, from_Keeps, held_mask, held_mask-IsLegal, moves, presses,
  to_Keeps,
}

module _ (dragging : Bool) (page : Page) (e : GestureInput) (at : Position) (now : ℕ) where
  -- a move of the viewport, or of the mouse with the button that is held
  drags :
      (g : Gesture) (p : Pointer)
      → IsHeldBy dragging (some g) p
      → EndsIn (IsHeldBy dragging (some g)) (drag_view page e at now p)
  unfolding drag_to
  drags g p h =
      either-EndsIn p.drag_viewport
        (λ c.
          let p' = record p { viewport_dragging = true } in
          returned-EndsIn (
            drag_to-held page.drag_threshold at p' (sym h.drag_viewport ∙ c)
              (record { drag_viewport = h.drag_viewport; mask = h.mask; unmoved = h.unmoved })))
        (λ c.
          weaken-EndsIn (fake_mouse_move e.client at now p)
            (moves dragging page e at now (held_mask dragging (some g)) p.gesture_last_magnitude_x
              p.gesture_last_magnitude_y p (held_mask-IsLegal dragging g) (to_Keeps p h))
            (from_Keeps (held_mask dragging (some g)) (some g) refl))

  after_move :
      (p : Pointer)
      → IsOpen dragging p
      → EndsIn (IsOpen dragging) (fake_mouse_move e.client at now p)
  after_move p k =
      let x = p.gesture_last_magnitude_x in
      let y = p.gesture_last_magnitude_y in
      weaken-EndsIn (fake_mouse_move e.client at now p)
        (moves dragging page e at now 0 x y p refl k) (λ q k'. closed_of dragging x y q k')

  after_control :
      (down : Bool) (p : Pointer)
      → IsOpen dragging p
      → IsOpen dragging (control_key page e at now down p)
  after_control down p k =
      closed_of dragging p.gesture_last_magnitude_x p.gesture_last_magnitude_y
        (control_key page e at now down p)
        (control_key-Keeps dragging 0 p.gesture_last_magnitude_x p.gesture_last_magnitude_y down p
          k)

  zoomed :
      (m : ℤ) (p : Pointer) → IsOpen dragging p → EndsIn (IsOpen dragging) (zoom page e at now m p)
  zoomed m p k =
      let p' = control_key page e at now true p in
      if-EndsIn (ltb 75 (abs (m -ℤ p.gesture_last_magnitude_x)))
        (then-EndsIn (scroll_forth_x m 75 at 8 p') (scroll_back_x m 75 at 16)
          (forth_x-IsOpen dragging m 75 (omega arith) at 8 refl p' (after_control true p k))
          (λ q k'. back_x-IsOpen dragging m 75 (omega arith) at 16 refl q k'))
        (returned-EndsIn k)

  scrolled :
      (p : Pointer)
      → IsOpen dragging p
      → EndsIn (IsOpen dragging) (move_gesture page e at now twodrag p)
  scrolled p k =
      let x = e.magnitude_x in
      let y = e.magnitude_y in
      let m₁ = fake_mouse_move e.client at now in
      let m₂ = m₁ >> scroll_forth_y y 50 at 8 in
      let m₃ = m₂ >> scroll_back_y y 50 at 16 in
      let m₄ = m₃ >> scroll_forth_x x 50 at 32 in
      let k₂ =
        then-EndsIn (m₁ p) (scroll_forth_y y 50 at 8) (after_move p k)
          (λ q h. forth_y-IsOpen dragging y 50 (omega arith) at 8 refl q h) in
      let k₃ =
        then-EndsIn (m₂ p) (scroll_back_y y 50 at 16) k₂
          (λ q h. back_y-IsOpen dragging y 50 (omega arith) at 16 refl q h) in
      let k₄ =
        then-EndsIn (m₃ p) (scroll_forth_x x 50 at 32) k₃
          (λ q h. forth_x-IsOpen dragging x 50 (omega arith) at 32 refl q h) in
      then-EndsIn (m₄ p) (scroll_back_x x 50 at 64) k₄
        (λ q h. back_x-IsOpen dragging x 50 (omega arith) at 64 refl q h)

  pinched :
      (p : Pointer)
      → IsOpen dragging p
      → EndsIn (IsOpen dragging) (move_gesture page e at now pinch p)
  pinched p k =
      let m = page.hypot e.magnitude_x e.magnitude_y in
      let m₁ = fake_mouse_move e.client at now in
      then-EndsIn ((m₁ >> zoom page e at now m) p) (change (control_key page e at now false))
        (then-EndsIn (m₁ p) (zoom page e at now m) (after_move p k) (zoomed m))
        (λ q h. returned-EndsIn (after_control false q h))

  pub moved_on :
      (g : Gesture) (p : Pointer)
      → IsHeldBy dragging (some g) p
      → EndsIn (IsHeldBy dragging (some g)) (move_gesture page e at now g p)
  moved_on onetap p h = returned-EndsIn h
  moved_on twotap p h = returned-EndsIn h
  moved_on threetap p h = returned-EndsIn h
  moved_on drag p h = drags drag p h
  moved_on longpress p h = drags longpress p h
  moved_on twodrag p h =
      weaken-EndsIn (move_gesture page e at now twodrag p) (scrolled p (to_Keeps p h))
        (λ q k. from_Keeps 0 (some twodrag) refl q k)
  moved_on pinch p h =
      weaken-EndsIn (move_gesture page e at now pinch p) (pinched p (to_Keeps p h))
        (λ q k. from_Keeps 0 (some pinch) refl q k)

  pub ended :
      (g : Gesture) (p : Pointer)
      → IsHeldBy dragging (some g) p
      → EndsIn (IsHeldBy dragging none) (end_gesture page e at now g p)
  ended onetap p h = returned-EndsIn (from_Keeps 0 none refl p (to_Keeps p h))
  ended twotap p h = returned-EndsIn (from_Keeps 0 none refl p (to_Keeps p h))
  ended threetap p h = returned-EndsIn (from_Keeps 0 none refl p (to_Keeps p h))
  ended twodrag p h = returned-EndsIn (from_Keeps 0 none refl p (to_Keeps p h))
  ended pinch p h = returned-EndsIn (from_Keeps 0 none refl p (to_Keeps p h))
  ended drag p h =
      let f = λ (d : Bool). held_mask d (some drag) in
      either-EndsIn p.drag_viewport
        (λ c. returned-EndsIn (record {
          drag_viewport = h.drag_viewport;
          mask = h.mask ∙ sym (chosen dragging page e at now f true p c h.drag_viewport);
          unmoved = h.unmoved;
        }))
        (λ c.
          presses dragging page e at now (held_mask dragging (some drag)) 0 none p
            (held_mask-IsLegal dragging drag) refl refl (to_Keeps p h))
  ended longpress p h =
      let f = λ (d : Bool). held_mask d (some longpress) in
      let m = held_mask dragging (some longpress) in
      let x = p.gesture_last_magnitude_x in
      let y = p.gesture_last_magnitude_y in
      either-EndsIn p.viewport_has_moved
        (λ c. returned-EndsIn (record {
          drag_viewport = h.drag_viewport;
          mask = h.mask ∙ sym (ap f (dragged c));
          unmoved = h.unmoved;
        }))
        (λ c'.
          either-EndsIn p.drag_viewport
            (λ c.
              then-EndsIn ((fake_mouse_move e.client at now >> click_at at 4) p)
                (change (λ q. record q { viewport_dragging = false }))
                (then-EndsIn (fake_mouse_move e.client at now p) (click_at at 4)
                  (moves dragging page e at now m x y p (held_mask-IsLegal dragging longpress)
                    (to_Keeps p h))
                  (λ q k.
                    click-Keeps dragging x y m 4 at q (held_mask-IsLegal dragging longpress) refl
                      k))
                (λ q k.
                  returned-EndsIn (record {
                    drag_viewport = k.drag_viewport;
                    mask = k.mask;
                    unmoved = k.unmoved;
                  })))
            (λ c.
              presses dragging page e at now m 0 none p (held_mask-IsLegal dragging longpress) refl
                refl (to_Keeps p h)))
    where
      dragged : p.viewport_has_moved ≡ true → true ≡ dragging
      dragged c = elim (Bool-cases dragging) [
        | inl t ↦ sym t
        | inr f ↦ absurd (cc (c, h.unmoved f))
      ]
