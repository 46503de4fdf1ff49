-- ===== src/Pointer/Scrolls.antt =====
-- The loops that scroll, of `_handleGesture` in core/rfb.js.
use proxmox_self_service_por.Prelude.{
  ℕ, zero, suc, ◌≤◌, ◌≡◌, refl, Bool, true, arith, Bool-cases, inl, inr,
}
use proxmox_self_service_por.Prelude.Int.{
  ℤ, pos, negsuc, ◌+ℤ◌, ◌-ℤ◌, ltb_ℤ, ltb_ℤ→lt, int_laws, +ℤ_parts,
}
use proxmox_self_service_por.Gesture.Touches.{abs}
use proxmox_self_service_por.Pointer.State.{Position, Pointer}
use proxmox_self_service_por.Pointer.Gestures.{
  scroll, click_at, scroll_forth_x, scroll_back_x, scroll_forth_y, scroll_back_y, step_x, step_y,
}
use proxmox_self_service_por.Pointer.Keeps.{
  Keeps, EndsIn, returned-EndsIn, then-EndsIn, weaken-EndsIn, IsLegal, click-Keeps,
}

-- One round brings the loop nearer to its end.
nearer :
    (a b : ℤ) (sense fuel : ℕ)
    → 1 ≤ sense
    → a +ℤ pos sense ≡ b
    → ltb_ℤ (pos sense) b ≡ true
    → abs b ≤ suc fuel
    → abs a ≤ fuel
nearer (pos n) b sense fuel s e more f =
    let parts = rw e at (+ℤ_parts (pos n) (pos sense)) in
    omega (arith, parts, ltb_ℤ→lt (pos sense) b more)
nearer (negsuc n) b sense fuel s e more f =
    let parts = rw e at (+ℤ_parts (negsuc n) (pos sense)) in
    absurd (omega (arith, parts, ltb_ℤ→lt (pos sense) b more))

-- A loop ends if every round takes the step that the source takes; `I` holds of the fields throughout.
module _ {I : Pointer → Type 0} (left : Pointer → ℤ) (step : Pointer → Pointer) (sense : ℕ)
    (at : Position) (button : ℕ) (some_sense : 1 ≤ sense)
    (clicks : (p : Pointer)
      → I p
      → EndsIn
          (λ q. I (step q) × (left (step q) +ℤ pos sense ≡ left p))
          (click_at at button p)) where
  pub scroll-EndsIn :
      (fuel : ℕ) (p : Pointer)
      → I p
      → abs (left p) ≤ fuel
      → EndsIn I (scroll left step sense at button fuel p)
  unfolding scroll
  scroll-EndsIn zero p i f = elim (Bool-cases (ltb_ℤ (pos sense) (left p))) [
    | inl more ↦ absurd (omega (arith, ltb_ℤ→lt (pos sense) (left p) more))
    | inr done ↦ rw done (returned-EndsIn i)
  ]
  scroll-EndsIn (suc fuel) p i f = elim (Bool-cases (ltb_ℤ (pos sense) (left p))) [
    | inl more ↦ rw more (
        then-EndsIn (click_at at button p) (λ q. scroll left step sense at button fuel (step q))
          (clicks p i)
          (λ q k.
            scroll-EndsIn fuel (step q) k.0
              (nearer (left (step q)) (left p) sense fuel some_sense k.1 more f)))
    | inr done ↦ rw done (returned-EndsIn i)
  ]

-- The mask is that of no button, and `drag_viewport` does not change.
abbrev pub IsOpen : Bool → Pointer → Type 0
IsOpen dragging p = Keeps dragging 0 p.gesture_last_magnitude_x p.gesture_last_magnitude_y p

pub closed_of :
    (dragging : Bool) (x y : ℤ) (p : Pointer) → Keeps dragging 0 x y p → IsOpen dragging p
closed_of dragging x y p k = record {
  drag_viewport = k.drag_viewport;
  mask = k.mask;
  magnitude_x = refl;
  magnitude_y = refl;
  unmoved = k.unmoved;
}

forth_left : (m a s : ℤ) → (m -ℤ (a +ℤ s)) +ℤ s ≡ m -ℤ a
forth_left m a s = omega int_laws

back_left : (m a s : ℤ) → ((a +ℤ (pos 0 -ℤ s)) -ℤ m) +ℤ s ≡ a -ℤ m
back_left m a s = omega int_laws

abs_sym : (a b : ℤ) → abs (b -ℤ a) ≤ abs (a -ℤ b)
unfolding ◌-ℤ◌
abs_sym a b = ground arith

module _ (dragging : Bool) (m : ℤ) (sense : ℕ) (some_sense : 1 ≤ sense) (at : Position) (button : ℕ)
    (legal : IsLegal button) where
  abbrev I : Pointer → Type 0
  I = IsOpen dragging

  -- a click and a step along the x axis
  clicks_x :
      (left : ℤ → ℤ) (d : ℤ)
      → ((a : ℤ) → left (a +ℤ d) +ℤ pos sense ≡ left a)
      → (p : Pointer) → I p
      → EndsIn
          (λ q.
            I (step_x d q)
            × (left (step_x d q).gesture_last_magnitude_x +ℤ pos sense
                ≡ left p.gesture_last_magnitude_x))
          (click_at at button p)
  clicks_x left d e p k =
      weaken-EndsIn (click_at at button p)
        (click-Keeps dragging p.gesture_last_magnitude_x p.gesture_last_magnitude_y 0 button at p
          refl legal k)
        (λ q k'. (
          record {
            drag_viewport = k'.drag_viewport;
            mask = k'.mask;
            magnitude_x = refl;
            magnitude_y = refl;
            unmoved = k'.unmoved;
          },
          rw k'.magnitude_x (e p.gesture_last_magnitude_x),
        ))

  -- a click and a step along the y axis
  clicks_y :
      (left : ℤ → ℤ) (d : ℤ)
      → ((a : ℤ) → left (a +ℤ d) +ℤ pos sense ≡ left a)
      → (p : Pointer) → I p
      → EndsIn
          (λ q.
            I (step_y d q)
            × (left (step_y d q).gesture_last_magnitude_y +ℤ pos sense
                ≡ left p.gesture_last_magnitude_y))
          (click_at at button p)
  clicks_y left d e p k =
      weaken-EndsIn (click_at at button p)
        (click-Keeps dragging p.gesture_last_magnitude_x p.gesture_last_magnitude_y 0 button at p
          refl legal k)
        (λ q k'. (
          record {
            drag_viewport = k'.drag_viewport;
            mask = k'.mask;
            magnitude_x = refl;
            magnitude_y = refl;
            unmoved = k'.unmoved;
          },
          rw k'.magnitude_y (e p.gesture_last_magnitude_y),
        ))

  pub forth_x-IsOpen : (p : Pointer) → I p → EndsIn I (scroll_forth_x m sense at button p)
  forth_x-IsOpen p k =
      scroll-EndsIn (λ q. m -ℤ q.gesture_last_magnitude_x) (step_x (pos sense)) sense at button
        some_sense (clicks_x (λ a. m -ℤ a) (pos sense) (λ a. forth_left m a (pos sense)))
        (abs (m -ℤ p.gesture_last_magnitude_x)) p k (omega arith)

  pub back_x-IsOpen : (p : Pointer) → I p → EndsIn I (scroll_back_x m sense at button p)
  back_x-IsOpen p k =
      scroll-EndsIn (λ q. q.gesture_last_magnitude_x -ℤ m) (step_x (pos 0 -ℤ pos sense)) sense at
        button some_sense
        (clicks_x (λ a. a -ℤ m) (pos 0 -ℤ pos sense) (λ a. back_left m a (pos sense)))
        (abs (m -ℤ p.gesture_last_magnitude_x)) p k (abs_sym m p.gesture_last_magnitude_x)

  pub forth_y-IsOpen : (p : Pointer) → I p → EndsIn I (scroll_forth_y m sense at button p)
  forth_y-IsOpen p k =
      scroll-EndsIn (λ q. m -ℤ q.gesture_last_magnitude_y) (step_y (pos sense)) sense at button
        some_sense (clicks_y (λ a. m -ℤ a) (pos sense) (λ a. forth_left m a (pos sense)))
        (abs (m -ℤ p.gesture_last_magnitude_y)) p k (omega arith)

  pub back_y-IsOpen : (p : Pointer) → I p → EndsIn I (scroll_back_y m sense at button p)
  back_y-IsOpen p k =
      scroll-EndsIn (λ q. q.gesture_last_magnitude_y -ℤ m) (step_y (pos 0 -ℤ pos sense)) sense at
        button some_sense
        (clicks_y (λ a. a -ℤ m) (pos 0 -ℤ pos sense) (λ a. back_left m a (pos sense)))
        (abs (m -ℤ p.gesture_last_magnitude_y)) p k (abs_sym m p.gesture_last_magnitude_y)
