-- ===== src/Gesture/Taps.antt =====
-- A single tap in core/input/gesturehandler.js, and the test for a single bit of `_state`.
use proxmox_self_service_por.Prelude.{
  ℕ, ◌+◌, ◌-◌, ◌≤◌, ◌≡◌, refl, Bool, true, false, Option, none, some, List, [], ◌∷◌, ◌==◌, ltb,
  arith, inl, inr, Bool-cases,
}
use proxmox_self_service_por.Prelude.Int.{ℤ, pos, ◌+ℤ◌}
use proxmox_self_service_por.Gesture.Flags.{
  Flags, onetap, init_state, is_single, state_to_gesture, mask, minus_one, some_flag, flags,
}
use proxmox_self_service_por.Gesture.Touches.{Point}
use proxmox_self_service_por.Gesture.State.{
  Timer, unset, expired, EventType, gesturestart, gestureend, Handler, Result, returned, then_do,
  GestureEvent,
}
use proxmox_self_service_por.Gesture.Handler.{
  has_detected_gesture, push_event, clean_up, release, touch_start, touch_end,
}
use proxmox_self_service_por.Gesture.Stage.{handler}

abbrev pub is_some {ℓ} : {A : Type ℓ} → Option A → Bool
is_some none = false
is_some (some a) = true

-- The trick with the bits says of every mask just whether it is that of a gesture.
pub is_single-state_to_gesture : (p : Flags) → is_single p ≡ is_some (state_to_gesture p)
unfolding is_single state_to_gesture
is_single-state_to_gesture p =
    go p.has_onetap p.has_twotap p.has_threetap p.has_drag p.has_longpress p.has_twodrag p.has_pinch
  where
    go :
        (a b c d e f g : Bool)
        → is_single (flags a b c d e f g) ≡ is_some (state_to_gesture (flags a b c d e f g))
    go a b c d e f g = ground arith

-- what the flags stand for
pub mask-minus_one : (p : Flags) → some_flag p ≡ true → mask (minus_one p) + 1 ≡ mask p
mask-minus_one p h = ground arith

-- the event of a tap, at the place of its touch
abbrev pub tap_event : EventType → ℤ → ℤ → GestureEvent
tap_event type x y =
    let at : Point = record {
      x = record { total = x +ℤ pos 0; size = 1 };
      y = record { total = y +ℤ pos 0; size = 1 };
    } in
    record { type = type; detail = record { gesture = onetap; client = at; magnitude = none } }

abbrev pub tapped : ℕ → ℤ → ℤ → ℕ → ℕ → Handler → Result
tapped id x y now later h = then_do (touch_start id x y now h) (touch_end id later)

-- If a handler is idle and has no id of a timeout of two touches, then a touch that starts and ends
-- within a second, with no move, no timeout and no other touch in between, is a tap at its place.
pub lone_tap :
    (id : ℕ) (x y : ℤ) (now later r : ℕ) (l : Timer) (es : List GestureEvent)
    → later - now ≤ 1000
    → tapped id x y now later (handler init_state [] [] false r l unset es)
      ≡ returned (
          handler init_state [] [] false later unset unset
            (tap_event gestureend x y ∷ tap_event gesturestart x y ∷ es))
unfolding touch_start touch_end has_detected_gesture push_event clean_up release is_single
    state_to_gesture
lone_tap id x y now later r l es h =
    let soon : ltb 250 (later - later) ≡ false = ground arith in
    let short : ltb 1000 (later - now) ≡ false = ground arith in
    let same : (id == id) ≡ true = ground arith in rw (soon, short, same) (rw same refl)

-- The same touch is lost if the timeout of two touches has ever run and was not stopped since: its id is
-- still there, and the handler takes it for one that waits.
pub lost_tap :
    (id : ℕ) (x y : ℤ) (now later r : ℕ) (l : Timer) (es : List GestureEvent)
    → tapped id x y now later (handler init_state [] [] false r l expired es)
      ≡ returned (handler init_state [] [] false later unset unset es)
unfolding touch_start touch_end has_detected_gesture push_event clean_up release is_single
    state_to_gesture
lost_tap id x y now later r l es =
    let soon : ltb 250 (later - later) ≡ false = ground arith in
    let same : (id == id) ≡ true = ground arith in
    elim (Bool-cases (ltb 1000 (later - now))) [
      | inl long ↦ rw (soon, long, same) (rw same refl)
      | inr short ↦ rw (soon, short, same) (rw same refl)
    ]
