-- ===== src/Gesture/Starts.antt =====
-- `_touchStart` of core/input/gesturehandler.js through the stages.
use proxmox_self_service_por.Prelude.{
  ℕ, ◌≡◌, refl, inl, inr, Bool, true, false, List, [], ◌∷◌, ◌++◌, arith,
}
use proxmox_self_service_por.Prelude.Int.{ℤ}
use proxmox_self_service_por.Gesture.Flags.{
  Gesture, onetap, twotap, threetap, drag, longpress, twodrag, pinch, flag, is_single, some_flag,
  invert, no_gesture,
}
use proxmox_self_service_por.Gesture.Touches.{Touch, new_touch, some_active, is_nil}
use proxmox_self_service_por.Gesture.State.{Timer, Handler, returned}
use proxmox_self_service_por.Gesture.Handler.{
  has_detected_gesture, touch_start, ignore, enter, is_late,
}
use proxmox_self_service_por.Gesture.Counts.{count}
use proxmox_self_service_por.Gesture.Stage.{
  Stage, idle, draining, one, two, moved, three, tap, dead, held, Tally, Sound, EndsIn, IsHeld,
  IsTap, returned-EndsIn, if-EndsIn,
}
use proxmox_self_service_por.Gesture.Tallies.{ignore-Tally, track-Tally}

-- What `_hasDetectedGesture` says of a gesture's bit.
pub detected_held :
    (g : Gesture) (h : Handler) → IsHeld g → has_detected_gesture (enter (flag g) h) ≡ true
unfolding has_detected_gesture is_single
detected_held onetap h k = absurd k
detected_held twotap h k = absurd k
detected_held threetap h k = absurd k
detected_held drag h k = refl
detected_held longpress h k = refl
detected_held twodrag h k = refl
detected_held pinch h k = refl

pub detected_tap :
    (g : Gesture) (h : Handler)
    → IsTap g
    → has_detected_gesture (enter (flag g) h) ≡ invert (some_active h.tracked)
unfolding has_detected_gesture is_single
detected_tap drag h k = absurd k
detected_tap longpress h k = absurd k
detected_tap twodrag h k = absurd k
detected_tap pinch h k = absurd k
detected_tap onetap h k = refl
detected_tap twotap h k = refl
detected_tap threetap h k = refl

pub some_flag-flag : (g : Gesture) → some_flag (flag g) ≡ true
some_flag-flag onetap = refl
some_flag-flag twotap = refl
some_flag-flag threetap = refl
some_flag-flag drag = refl
some_flag-flag longpress = refl
some_flag-flag twodrag = refl
some_flag-flag pinch = refl

append-nil : (id : ℕ) (js : List ℕ) → is_nil (js ++ (id ∷ [])) ≡ false
append-nil id [] = refl
append-nil id (j ∷ js) = refl

active-more : (ts us : List Touch) → some_active ts ≡ true → some_active (ts ++ us) ≡ true
active-more [] us h = absurd (cc h)
active-more (u ∷ ts) us h = grind (arith, active-more ts us)

module _ (strict : Bool) (down : List ℕ) (id : ℕ) (x y : ℤ) (now : ℕ) where
  -- the touch is ignored, or it is tracked
  ignored :
      (h : Handler)
      → Tally down h.ignored h.tracked h.waiting_release
      → Stage strict (ignore id h)
      → EndsIn (Sound strict (id ∷ down)) (returned (ignore id h))
  ignored h b s = returned-EndsIn (record { stage = s; tally = ignore-Tally b id })

  pub touch_start-Sound :
      (h : Handler)
      → Stage strict h
      → Tally down h.ignored h.tracked h.waiting_release
      → count id down ≡ 0
      → EndsIn (Sound strict (id ∷ down)) (touch_start id x y now h)
  unfolding touch_start has_detected_gesture is_single
  touch_start-Sound h (idle r l k es ql qk o) b n = returned-EndsIn (record {
    stage = one (new_touch id x y now) [] r Timer.waiting k es qk o refl;
    tally = track-Tally b id x y now refl n;
  })
  touch_start-Sound h (draining js w r l k es ql qk o f) b n =
      ignored h b (draining (js ++ (id ∷ [])) w r l k es ql qk o (append-nil id js))
  touch_start-Sound h (one t js r l k es qk o a) b n =
      if-EndsIn (is_late now (t ∷ []))
        (ignored (enter no_gesture h) b
          (dead t [] (js ++ (id ∷ [])) false r l k es (inr (qk, refl)) o a))
        (returned-EndsIn (record {
          stage =
              two t (new_touch id x y now) js r Timer.unset k es tt qk o
                (active-more (t ∷ []) (new_touch id x y now ∷ []) a);
          tally = track-Tally b id x y now refl n;
        }))
  touch_start-Sound h (two t u js r l k es ql qk o a) b n =
      if-EndsIn (is_late now (t ∷ []))
        (ignored (enter no_gesture h) b
          (dead t (u ∷ []) (js ++ (id ∷ [])) false r l k es (inl ql) o a))
        (returned-EndsIn (record {
          stage =
              three t u (new_touch id x y now) js r l k es ql qk o
                (active-more (t ∷ u ∷ []) (new_touch id x y now ∷ []) a);
          tally = track-Tally b id x y now refl n;
        }))
  touch_start-Sound h (moved t u js r l k es ql o a) b n =
      if-EndsIn (is_late now (t ∷ []))
        (ignored (enter no_gesture h) b
          (dead t (u ∷ []) (js ++ (id ∷ [])) false r l k es (inl ql) o a))
        (returned-EndsIn (record {
          stage =
              dead t (u ∷ new_touch id x y now ∷ []) js false r l k es (inl ql) o
                (active-more (t ∷ u ∷ []) (new_touch id x y now ∷ []) a);
          tally = track-Tally b id x y now refl n;
        }))
  touch_start-Sound h (three t u v js r l k es ql qk o a) b n = rw a (
      if-EndsIn (is_late now (t ∷ []))
        (ignored (enter no_gesture h) b
          (dead t (u ∷ v ∷ []) (js ++ (id ∷ [])) false r l k es (inl ql) o a))
        (returned-EndsIn (record {
          stage =
              dead t (u ∷ v ∷ new_touch id x y now ∷ []) js false r l k es (inl ql) o
                (active-more (t ∷ u ∷ v ∷ []) (new_touch id x y now ∷ []) a);
          tally = track-Tally b id x y now refl n;
        })))
  touch_start-Sound h (tap g t ts js r l k es i ql qk o a) b n =
      rw (detected_tap g h i, a, some_flag-flag g)
        (if-EndsIn (is_late now (t ∷ ts))
          (ignored (enter no_gesture h) b (dead t ts (js ++ (id ∷ [])) true r l k es (inl ql) o a))
          (ignored (enter no_gesture h) b (dead t ts (js ++ (id ∷ [])) true r l k es (inl ql) o a)))
  touch_start-Sound h (dead t ts js w r l k es q o a) b n =
      ignored h b (dead t ts (js ++ (id ∷ [])) w r l k es q o a)
  touch_start-Sound h (held g t ts js w r l k es i ql qk o s a) b n =
      rw (detected_held g h i)
        (ignored h b (held g t ts (js ++ (id ∷ [])) w r l k es i ql qk o s a))
