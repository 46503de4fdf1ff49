-- ===== src/Pointer/Touches.antt =====
-- From the touches of core/input/gesturehandler.js to the pointer events of core/rfb.js, and the moves of
-- the mouse.
use proxmox_self_service_por.Prelude.{
  ℕ, ◌-◌, ◌/◌, ◌%◌, ◌≡◌, refl, Bool, true, false, none, List, [], ◌∷◌, ◌==◌, ltb, arith,
  if◌then◌else◌,
}
use proxmox_self_service_por.Prelude.Int.{ℤ}
use proxmox_self_service_por.Gesture.Touches.{Fraction}
use proxmox_self_service_por.Gesture.State.{GestureEvent, Handler}
use proxmox_self_service_por.Gesture.State
use proxmox_self_service_por.Gesture.Runs.{Reached, lifted-told}
use proxmox_self_service_por.Pointer.State.{
  Position, Sent, Pointer, Result, returned, thrown, endless, then_do, call, report, send_mouse,
}
use proxmox_self_service_por.Pointer.Mouse.{handle_mouse_move, handle_delayed_mouse_move}
use proxmox_self_service_por.Pointer.Gestures.{Page}
use proxmox_self_service_por.Pointer.Keeps.{EndsIn, returned-EndsIn, either-EndsIn, IsLegal}
use proxmox_self_service_por.Pointer.Held.{IsHeldBy}
use proxmox_self_service_por.Pointer.Released.{deliver, deliver-held}

pub returned_with :
    {P : Pointer → Type 0} (r : Result) → EndsIn P r → (q : Pointer) × (r ≡ returned q) × P q
returned_with (returned q) h = (q, refl, h.holds)
returned_with (thrown q) h = absurd h.holds
returned_with endless h = absurd h.holds

-- Whatever touches and timeouts come to a gesture handler, and whatever the measures of the browser
-- say: once no touch is down, and the events of the handler have come to `_handleGesture` in their
-- order, it has returned from each of them, and no mouse button is left pressed. No button was pressed
-- before, `dragViewport` does not change, no earlier drag is left over without it, and the timeout of
-- two touches does not come while the handler waits for releases.
pub touches_release :
    (page : Page) (pixels : Fraction → ℤ) (clock : List GestureEvent → ℕ) (h : Handler)
    (p : Pointer)
    → Reached true [] (State.returned h)
    → p.mouse_button_mask ≡ 0
    → (p.drag_viewport ≡ false → p.viewport_has_moved ≡ false)
    → (q : Pointer) × (deliver page pixels clock h.events p ≡ returned q)
      × (q.mouse_button_mask ≡ 0)
touches_release page pixels clock h p r z u =
    let k : IsHeldBy p.drag_viewport none p = record {
      drag_viewport = refl;
      mask = z;
      unmoved = u;
    } in
    let (q, e, k') =
      returned_with (deliver page pixels clock h.events p)
        (deliver-held p.drag_viewport page pixels clock h.events none p (lifted-told h r) k) in
    (q, e, k'.mask)

-- the timer of a delayed move, if it is set
abbrev pub settle : ℕ → Pointer → Result
settle later p = if p.mouse_move_timer then handle_delayed_mouse_move later p else returned p

-- The newest call is the report of `at`.
abbrev pub Reports : Position → ℕ → Bool → Pointer → Type 0
Reports at mask extended p = (rest : List Sent) × (p.sent ≡ report at mask extended ∷ rest)

send_mouse-sent :
    (at : Position) (mask : ℕ) (p : Pointer)
    → p.connected ≡ true
    → p.view_only ≡ false
    → IsLegal mask
    → send_mouse at mask p ≡ returned (call (report at mask p.extended_pointer_event_supported) p)
unfolding send_mouse
send_mouse-sent at mask p c v l =
    let legal : (mask / 32768 % 2 == 0) ≡ true = ground arith in rw (c, v, legal) refl

-- the move of a timer that is set
settle-reported :
    (later : ℕ) (p : Pointer)
    → p.mouse_move_timer ≡ true
    → p.connected ≡ true
    → p.view_only ≡ false
    → IsLegal p.mouse_button_mask
    → EndsIn
        (Reports p.mouse_pos p.mouse_button_mask p.extended_pointer_event_supported)
        (settle later p)
unfolding handle_delayed_mouse_move
settle-reported later p t c v l =
    either-EndsIn p.mouse_move_timer
      (λ e.
        let p' = record p { mouse_move_timer = false } in
        rw (send_mouse-sent p.mouse_pos p.mouse_button_mask p' c v l)
          (returned-EndsIn (p.sent, refl)))
      (λ e. absurd (cc (t, e)))

-- a move that is reported at once
now-reported :
    (at : Position) (now later : ℕ) (p : Pointer)
    → p.mouse_move_timer ≡ false
    → p.connected ≡ true
    → p.view_only ≡ false
    → IsLegal p.mouse_button_mask
    → EndsIn (Reports at p.mouse_button_mask p.extended_pointer_event_supported) (
        then_do
          (then_do
            (send_mouse at p.mouse_button_mask (record p { mouse_pos = at }))
            (λ q. returned (record q { mouse_last_move_time = now })))
          (settle later))
now-reported at now later p t c v l =
    rw (send_mouse-sent at p.mouse_button_mask (record p { mouse_pos = at }) c v l) (
      either-EndsIn p.mouse_move_timer (λ e. absurd (cc (t, e)))
        (λ e. returned-EndsIn (p.sent, refl)))

-- A move of the mouse is not lost, however soon it comes after another: on a connection that is open
-- and not view-only, it is the last that has been reported once the timer of the move has run, if there
-- is one, with the buttons that are pressed.
pub handle_mouse_move-reported :
    (at : Position) (now later : ℕ) (p : Pointer)
    → p.connected ≡ true
    → p.view_only ≡ false
    → IsLegal p.mouse_button_mask
    → (q : Pointer) × (then_do (handle_mouse_move at now p) (settle later) ≡ returned q)
      × Reports at p.mouse_button_mask p.extended_pointer_event_supported q
unfolding handle_mouse_move
handle_mouse_move-reported at now later p c v l =
    returned_with (then_do (handle_mouse_move at now p) (settle later))
      (go p.mouse_move_timer (ltb 17 (now - p.mouse_last_move_time)) refl)
  where
    go :
        (t late : Bool)
        → p.mouse_move_timer ≡ t
        → EndsIn (Reports at p.mouse_button_mask p.extended_pointer_event_supported) (
            let p' = record p { mouse_pos = at } in
            then_do
              (if t
                then returned p'
                else if late
                then then_do
                    (send_mouse at p.mouse_button_mask p')
                    (λ q. returned (record q { mouse_last_move_time = now }))
                else returned (record p' { mouse_move_timer = true }))
              (settle later))
    go true late e = settle-reported later (record p { mouse_pos = at }) e c v l
    go false true e = now-reported at now later p e c v l
    go false false e =
        settle-reported later (record p { mouse_pos = at; mouse_move_timer = true }) refl c v l
