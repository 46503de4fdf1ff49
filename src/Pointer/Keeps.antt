-- ===== src/Pointer/Keeps.antt =====
-- What the mouse handlers of core/rfb.js keep: the mask of the buttons, and what the gestures go by.
use proxmox_self_service_por.Prelude.{
  ℕ, ◌-◌, ◌/◌, ◌%◌, ◌≡◌, ◌∙◌, refl, Bool, true, false, none, ◌==◌, ltb, arith, if◌then◌else◌,
}
use proxmox_self_service_por.Prelude.Int.{ℤ}
use proxmox_self_service_por.Pointer.State.{
  Position, Pointer, Result, returned, thrown, endless, then_do, change, call, cursor, send_mouse,
  report,
}
use proxmox_self_service_por.Pointer.Mouse.{
  flush_mouse_move_timer, handle_mouse_button, handle_mouse_move, set_mask,
}
use proxmox_self_service_por.Pointer.Gestures.{
  send_key, other, handle_key_event, fake_mouse_move, click_at,
}

-- A handler returns, and then `P` holds.
abbrev Holds : (Pointer → Type 0) → Result → Type 0
Holds P (returned p) = P p
Holds P (thrown p) = ⊥
Holds P endless = ⊥

pub record EndsIn (P : Pointer → Type 0) (r : Result) : Type 0 where
  pub holds : Holds P r

module _ {P : Pointer → Type 0} where
  pub returned-EndsIn : {p : Pointer} → P p → EndsIn P (returned p)
  returned-EndsIn h = record { holds = h }

  pub if-EndsIn :
      {r s : Result} (b : Bool) → EndsIn P r → EndsIn P s → EndsIn P (if b then r else s)
  if-EndsIn true p q = p
  if-EndsIn false p q = q

  pub either-EndsIn :
      {r s : Result} (b : Bool)
      → (b ≡ true → EndsIn P r)
      → (b ≡ false → EndsIn P s)
      → EndsIn P (if b then r else s)
  either-EndsIn true p q = p refl
  either-EndsIn false p q = q refl

  pub then-EndsIn :
      {Q : Pointer → Type 0} (r : Result) (f : Pointer → Result)
      → EndsIn P r
      → ((p : Pointer) → P p → EndsIn Q (f p))
      → EndsIn Q (then_do r f)
  then-EndsIn (returned p) f h q = q p h.holds
  then-EndsIn (thrown p) f h q = absurd h.holds
  then-EndsIn endless f h q = absurd h.holds

pub weaken-EndsIn :
    {P Q : Pointer → Type 0} (r : Result) → EndsIn P r → ((p : Pointer) → P p → Q p) → EndsIn Q r
weaken-EndsIn (returned p) h f = record { holds = f p h.holds }
weaken-EndsIn (thrown p) h f = absurd h.holds
weaken-EndsIn endless h f = absurd h.holds

-- The mask is `m` and the magnitudes `x` and `y`; without `drag_viewport`, no gesture has moved the
-- viewport.
pub record Keeps (dragging : Bool) (m : ℕ) (x y : ℤ) (p : Pointer) : Type 0 where
  pub drag_viewport : p.drag_viewport ≡ dragging
  pub mask : p.mouse_button_mask ≡ m
  pub magnitude_x : p.gesture_last_magnitude_x ≡ x
  pub magnitude_y : p.gesture_last_magnitude_y ≡ y
  pub unmoved : dragging ≡ false → p.viewport_has_moved ≡ false

-- A mask that `_sendMouse` takes.
abbrev pub IsLegal : ℕ → Type 0
IsLegal mask = mask / 32768 % 2 ≡ 0

-- A change of other fields keeps it, and one of the mask gives it the new mask.
pub recast :
    {dragging : Bool} {m : ℕ} {x y : ℤ} (p q : Pointer)
    → q.drag_viewport ≡ p.drag_viewport
    → q.gesture_last_magnitude_x ≡ p.gesture_last_magnitude_x
    → q.gesture_last_magnitude_y ≡ p.gesture_last_magnitude_y
    → q.viewport_has_moved ≡ p.viewport_has_moved
    → (m' : ℕ) → q.mouse_button_mask ≡ m'
    → Keeps dragging m x y p
    → Keeps dragging m' x y q
recast p q a b c d m' e k = record {
  drag_viewport = a ∙ k.drag_viewport;
  mask = e;
  magnitude_x = b ∙ k.magnitude_x;
  magnitude_y = c ∙ k.magnitude_y;
  unmoved = λ f. d ∙ k.unmoved f;
}

module _ (dragging : Bool) (m : ℕ) (x y : ℤ) where
  pub send_mouse-Keeps :
      (at : Position) (mask : ℕ) (p : Pointer)
      → IsLegal mask
      → Keeps dragging m x y p
      → EndsIn (Keeps dragging m x y) (send_mouse at mask p)
  unfolding send_mouse
  send_mouse-Keeps at mask p l k =
      let legal : (mask / 32768 % 2 == 0) ≡ true = ground arith in
      let sent = call (report at mask p.extended_pointer_event_supported) p in
      let k' = recast p sent refl refl refl refl m k.mask k in
      if-EndsIn p.connected
        (if-EndsIn p.view_only (returned-EndsIn k) (rw legal (returned-EndsIn k')))
        (returned-EndsIn k)

  pub flush-Keeps :
      (at : Position) (p : Pointer)
      → IsLegal m
      → Keeps dragging m x y p
      → EndsIn (Keeps dragging m x y) (flush_mouse_move_timer at p)
  unfolding flush_mouse_move_timer
  flush-Keeps at p l k =
      if-EndsIn p.mouse_move_timer
        (send_mouse-Keeps at p.mouse_button_mask (record p { mouse_move_timer = false })
          (rw k.mask l)
          (recast p (record p { mouse_move_timer = false }) refl refl refl refl m k.mask k))
        (returned-EndsIn k)

module _ (dragging : Bool) (m : ℕ) (x y : ℤ) where
  pub button-Keeps :
      (at : Position) (m' : ℕ) (p : Pointer)
      → IsLegal m
      → IsLegal m'
      → Keeps dragging m x y p
      → EndsIn (Keeps dragging m' x y) (handle_mouse_button at m' p)
  unfolding handle_mouse_button
  button-Keeps at m' p l l' k =
      then-EndsIn (then_do (flush_mouse_move_timer at p) (change (set_mask m'))) (send_mouse at m')
        (then-EndsIn (flush_mouse_move_timer at p) (change (set_mask m'))
          (flush-Keeps dragging m x y at p l k)
          (λ q k'. returned-EndsIn (recast q (set_mask m' q) refl refl refl refl m' refl k')))
        (λ q k'. send_mouse-Keeps dragging m' x y at m' q l' k')

  pub move-Keeps :
      (at : Position) (now : ℕ) (p : Pointer)
      → IsLegal m
      → Keeps dragging m x y p
      → EndsIn (Keeps dragging m x y) (handle_mouse_move at now p)
  unfolding handle_mouse_move
  move-Keeps at now p l k =
      let p₁ = record p { mouse_pos = at } in
      let k₁ = recast p p₁ refl refl refl refl m k.mask k in
      if-EndsIn p.mouse_move_timer (returned-EndsIn k₁) (
        if-EndsIn (ltb 17 (now - p.mouse_last_move_time))
          (then-EndsIn (send_mouse at p.mouse_button_mask p₁)
            (λ q. returned (record q { mouse_last_move_time = now }))
            (send_mouse-Keeps dragging m x y at p.mouse_button_mask p₁ (rw k.mask l) k₁)
            (λ q k'. returned-EndsIn (
              recast q (record q { mouse_last_move_time = now }) refl refl refl refl m k'.mask k')))
          (returned-EndsIn
            (recast p (record p₁ { mouse_move_timer = true }) refl refl refl refl m k.mask k)))

  pub fake_move-Keeps :
      (client at : Position) (now : ℕ) (p : Pointer)
      → IsLegal m
      → Keeps dragging m x y p
      → EndsIn (Keeps dragging m x y) (fake_mouse_move client at now p)
  unfolding fake_mouse_move
  fake_move-Keeps client at now p l k =
      then-EndsIn (handle_mouse_move at now p) (change (call (cursor client)))
        (move-Keeps at now p l k)
        (λ q k'.
          returned-EndsIn (recast q (call (cursor client) q) refl refl refl refl m k'.mask k'))

  pub control_key-Keeps :
      (down : Bool) (p : Pointer)
      → Keeps dragging m x y p
      → Keeps dragging m x y (handle_key_event 65507 other down none none p)
  unfolding handle_key_event send_key
  control_key-Keeps down p k = record {
    drag_viewport = ground arith;
    mask = ground arith;
    magnitude_x = ground arith;
    magnitude_y = ground arith;
    unmoved = λ e. ground arith;
  }

module _ (dragging : Bool) (x y : ℤ) where
  -- A click leaves no button pressed.
  pub click-Keeps :
      (m button : ℕ) (at : Position) (p : Pointer)
      → IsLegal m
      → IsLegal button
      → Keeps dragging m x y p
      → EndsIn (Keeps dragging 0 x y) (click_at at button p)
  click-Keeps m button at p l l' k =
      then-EndsIn (handle_mouse_button at button p) (handle_mouse_button at 0)
        (button-Keeps dragging m x y at button p l l' k)
        (λ q k'. button-Keeps dragging button x y at 0 q l' refl k')
