-- ===== src/Pointer/Released.antt =====
-- Gestures leave no button pressed: the events of a gesture handler, given to `_handleGesture` of core/rfb.js.
use proxmox_self_service_por.Prelude.{
  ℕ, ◌≡◌, ◌∙◌, refl, sym, ap, Bool, true, false, Option, none, some, List, [], ◌∷◌, ◌==◌, arith,
  if◌then◌else◌,
}
use proxmox_self_service_por.Prelude.Int.{ℤ, pos}
use proxmox_self_service_por.Gesture.Flags.{Gesture, flag, mask}
use proxmox_self_service_por.Gesture.Touches.{Fraction}
use proxmox_self_service_por.Gesture.State.{
  EventType, gesturestart, gesturemove, gestureend, GestureEvent,
}
use proxmox_self_service_por.Gesture.Stage.{tell, tell_next, follow}
use proxmox_self_service_por.Pointer.State.{
  Position, Pointer, Result, returned, then_do, client_to_element,
}
use proxmox_self_service_por.Pointer.Gestures.{GestureInput, Page, handle_gesture, by_type}
use proxmox_self_service_por.Pointer.Keeps.{EndsIn, returned-EndsIn, then-EndsIn}
use proxmox_self_service_por.Pointer.Held.{IsHeldBy, started}
use proxmox_self_service_por.Pointer.Turns.{moved_on, ended}

-- The events of a gesture handler come to `_handleGesture`, the newest first in the list: `pixels`
-- rounds a mean to whole pixels, and `clock` is the time when the newest has come.
abbrev pub input_of : (Fraction → ℤ) → GestureEvent → GestureInput
input_of pixels e =
    let d = e.detail in
    record {
      type = e.type;
      gesture = d.gesture;
      client = record { x = pixels d.client.x; y = pixels d.client.y };
      magnitude_x = elim d.magnitude [ none ↦ pos 0 | some m ↦ pixels m.x ];
      magnitude_y = elim d.magnitude [ none ↦ pos 0 | some m ↦ pixels m.y ];
    }

abbrev pub deliver :
    Page → (Fraction → ℤ) → (List GestureEvent → ℕ) → List GestureEvent → Pointer → Result
deliver page pixels clock [] p = returned p
deliver page pixels clock (e ∷ es) p =
    then_do (deliver page pixels clock es p)
      (handle_gesture page (input_of pixels e) (clock (e ∷ es)))

same_gesture : (g k : Gesture) → (mask (flag g) == mask (flag k)) ≡ true → g ≡ k
same_gesture g k h = ground arith

some_same : {A : Type 0} (a b : A) → some a ≡ some b → a ≡ b
some_same a b h = cc h

goes_on :
    (dragging : Bool) (k o : Option Gesture) (r : Result)
    → k ≡ o
    → EndsIn (IsHeldBy dragging k) r
    → EndsIn (IsHeldBy dragging o) r
goes_on dragging k o r q h = rw (sym q) h

module _ (dragging : Bool) (page : Page) (e : GestureInput) (at : Position) (now : ℕ) where
  one_step :
      (type : EventType) (o o' : Option Gesture) (p : Pointer)
      → follow type e.gesture o ≡ some o'
      → IsHeldBy dragging o p
      → EndsIn (IsHeldBy dragging o') (by_type page e at now type p)
  one_step gesturestart none o' p f h =
      goes_on dragging (some e.gesture) o' (by_type page e at now gesturestart p)
        (some_same (some e.gesture) o' f) (started dragging page e at now e.gesture p h)
  one_step gesturestart (some k) o' p f h = absurd (cc f)
  one_step gesturemove none o' p f h = absurd (cc f)
  one_step gesturemove (some k) o' p f h = go (mask (flag e.gesture) == mask (flag k)) refl f
    where
      go :
          (b : Bool)
          → (mask (flag e.gesture) == mask (flag k)) ≡ b
          → (if b then some (some k) else none) ≡ some o'
          → EndsIn (IsHeldBy dragging o') (by_type page e at now gesturemove p)
      go true same q =
          let g : k ≡ e.gesture = sym (same_gesture e.gesture k same) in
          goes_on dragging (some e.gesture) o' (by_type page e at now gesturemove p)
            (ap some (sym g) ∙ some_same (some k) o' q)
            (moved_on dragging page e at now e.gesture p (rw g at h))
      go false same q = absurd (cc q)
  one_step gestureend none o' p f h = absurd (cc f)
  one_step gestureend (some k) o' p f h = go (mask (flag e.gesture) == mask (flag k)) refl f
    where
      go :
          (b : Bool)
          → (mask (flag e.gesture) == mask (flag k)) ≡ b
          → (if b then some none else none) ≡ some o'
          → EndsIn (IsHeldBy dragging o') (by_type page e at now gestureend p)
      go true same q =
          let g : k ≡ e.gesture = sym (same_gesture e.gesture k same) in
          goes_on dragging none o' (by_type page e at now gestureend p) (some_same none o' q)
            (ended dragging page e at now e.gesture p (rw g at h))
      go false same q = absurd (cc q)

module _ (dragging : Bool) (page : Page) (pixels : Fraction → ℤ)
    (clock : List GestureEvent → ℕ) where
  -- Events in order leave just the buttons pressed that the gesture holds which goes on: no event makes
  -- `_handleGesture` throw, and none makes it loop for ever.
  pub deliver-held :
      (es : List GestureEvent) (o : Option Gesture) (p : Pointer)
      → tell es ≡ some o
      → IsHeldBy dragging none p
      → EndsIn (IsHeldBy dragging o) (deliver page pixels clock es p)
  unfolding handle_gesture
  deliver-held [] o p t h =
      goes_on dragging none o (returned p) (some_same none o t) (returned-EndsIn h)
  deliver-held (e ∷ es) o p t h = before (tell es) refl t (λ o'. deliver-held es o' p)
    where
      before :
          (s : Option (Option Gesture))
          → tell es ≡ s
          → tell_next e.type e.detail.gesture s ≡ some o
          → ((o' : Option Gesture)
              → tell es ≡ some o'
              → IsHeldBy dragging none p
              → EndsIn (IsHeldBy dragging o') (deliver page pixels clock es p))
          → EndsIn (IsHeldBy dragging o) (deliver page pixels clock (e ∷ es) p)
      before none q n ih = absurd (cc n)
      before (some o') q n ih =
          let i = input_of pixels e in
          then-EndsIn (deliver page pixels clock es p) (handle_gesture page i (clock (e ∷ es)))
            (ih o' q h)
            (λ p' h'.
              one_step dragging page i (client_to_element i.client p'.bounds) (clock (e ∷ es))
                e.type o' o p' n h')
