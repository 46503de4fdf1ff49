-- ===== src/Gesture/Pushes.antt =====
-- `_pushEvent` and the timeouts of core/input/gesturehandler.js through the stages.
use proxmox_self_service_por.Prelude.{
  ℕ, ◌≡◌, refl, ap, inl, inr, Bool, true, false, none, some, List, [], ◌∷◌, ◌==◌, arith,
  if◌then◌else◌,
}
use proxmox_self_service_por.Gesture.Flags.{
  Gesture, onetap, twotap, threetap, drag, longpress, twodrag, pinch, flag, is_single,
  state_to_gesture, mask,
}
use proxmox_self_service_por.Gesture.Touches.{Touch, some_active, is_pinching}
use proxmox_self_service_por.Gesture.State.{
  Timer, unset, waiting, expired, EventType, gesturestart, gesturemove, gestureend, Handler,
  returned, then_do, GestureEvent,
}
use proxmox_self_service_por.Gesture.Handler.{
  has_detected_gesture, detail_of, push_event, on_longpress_timeout, on_two_touch_timeout,
}
use proxmox_self_service_por.Gesture.Stage.{
  Stage, idle, draining, one, two, moved, three, tap, dead, held, handler, Tally, Sound, EndsIn,
  tell_next, IsHeld, IsQuiet, Told, returned-EndsIn,
}

abbrev pub pushed_event : EventType → Gesture → Touch → List Touch → GestureEvent
pushed_event type g t ts = record { type = type; detail = detail_of type g t ts }

pub push_event-flag :
    (type : EventType) (g : Gesture) (t : Touch) (ts : List Touch) (js : List ℕ) (w : Bool) (r : ℕ)
    (l k : Timer) (es : List GestureEvent)
    → push_event type (handler (flag g) (t ∷ ts) js w r l k es)
      ≡ returned (handler (flag g) (t ∷ ts) js w r l k (pushed_event type g t ts ∷ es))
unfolding push_event state_to_gesture
push_event-flag type onetap t ts js w r l k es = refl
push_event-flag type twotap t ts js w r l k es = refl
push_event-flag type threetap t ts js w r l k es = refl
push_event-flag type drag t ts js w r l k es = refl
push_event-flag type longpress t ts js w r l k es = refl
push_event-flag type twodrag t ts js w r l k es = refl
push_event-flag type pinch t ts js w r l k es = refl

same_mask : (g : Gesture) → (mask (flag g) == mask (flag g)) ≡ true
same_mask g = ground arith

-- What an pushed_event adds to what has been told.
pub start-Told :
    (strict : Bool) (g : Gesture) (t : Touch) (ts : List Touch) (es : List GestureEvent)
    → Told strict none es
    → Told strict (some g) (pushed_event gesturestart g t ts ∷ es)
start-Told strict g t ts es o s = ap (tell_next gesturestart g) (o s)

pub move-Told :
    (strict : Bool) (g : Gesture) (t : Touch) (ts : List Touch) (es : List GestureEvent)
    → Told strict (some g) es
    → Told strict (some g) (pushed_event gesturemove g t ts ∷ es)
move-Told strict g t ts es o s = rw (o s, same_mask g) refl

pub end-Told :
    (strict : Bool) (g : Gesture) (t : Touch) (ts : List Touch) (es : List GestureEvent)
    → Told strict (some g) es
    → Told strict none (pushed_event gestureend g t ts ∷ es)
end-Told strict g t ts es o s = rw (o s, same_mask g) refl

waiting-quiet : (l : Timer) → IsQuiet l → l ≡ waiting → ⊥
waiting-quiet unset q e = cc e
waiting-quiet waiting q e = q
waiting-quiet expired q e = cc e

module _ (strict : Bool) (down : List ℕ) where
  -- A gesture that is held starts, and moves.
  pub start-Sound :
      (g : Gesture) (t : Touch) (ts : List Touch) (js : List ℕ) (w : Bool) (r : ℕ) (l k : Timer)
      (es : List GestureEvent)
      → IsHeld g
      → IsQuiet l
      → IsQuiet k
      → Told strict none es
      → (strict ≡ true → w ≡ false)
      → some_active (t ∷ ts) ≡ true
      → Tally down js (t ∷ ts) w
      → EndsIn (Sound strict down) (
          then_do
            (push_event gesturestart (handler (flag g) (t ∷ ts) js w r l k es))
            (push_event gesturemove))
  start-Sound g t ts js w r l k es i ql qk o s a b =
      rw (push_event-flag gesturestart g t ts js w r l k es) (
        rw (push_event-flag gesturemove g t ts js w r l k (pushed_event gesturestart g t ts ∷ es)) (
          returned-EndsIn (record {
            stage =
                held g t ts js w r l k
                  (pushed_event gesturemove g t ts ∷ pushed_event gesturestart g t ts ∷ es) i ql qk
                  (move-Told strict g t ts (pushed_event gesturestart g t ts ∷ es)
                    (start-Told strict g t ts es o))
                  s a;
            tally = b;
          })))

  -- the callback of the timeout for a long press, when it is due
  long_start :
      (t : Touch) (ts : List Touch) (js : List ℕ) (r : ℕ) (k : Timer) (es : List GestureEvent)
      → IsQuiet k
      → Told strict none es
      → some_active (t ∷ ts) ≡ true
      → Tally down js (t ∷ ts) false
      → EndsIn
          (Sound strict down)
          (push_event gesturestart (handler (flag longpress) (t ∷ ts) js false r expired k es))
  long_start t ts js r k es qk o a b =
      rw (push_event-flag gesturestart longpress t ts js false r expired k es) (
        returned-EndsIn (record {
          stage =
              held longpress t ts js false r expired k
                (pushed_event gesturestart longpress t ts ∷ es) tt tt qk
                (start-Told strict longpress t ts es o) (λ _. refl) a;
          tally = b;
        }))

  pub on_longpress_timeout-Sound :
      (h : Handler)
      → Stage strict h
      → Tally down h.ignored h.tracked h.waiting_release
      → h.longpress_timeout ≡ waiting
      → EndsIn (Sound strict down) (on_longpress_timeout (record h { longpress_timeout = expired }))
  unfolding on_longpress_timeout has_detected_gesture is_single
  on_longpress_timeout-Sound h (idle r l k es ql qk o) b e = absurd (waiting-quiet l ql e)
  on_longpress_timeout-Sound h (draining js w r l k es ql qk o f) b e =
      absurd (waiting-quiet l ql e)
  on_longpress_timeout-Sound h (one t js r l k es qk o a) b e = long_start t [] js r k es qk o a b
  on_longpress_timeout-Sound h (two t u js r l k es ql qk o a) b e = absurd (waiting-quiet l ql e)
  on_longpress_timeout-Sound h (moved t u js r l k es ql o a) b e = absurd (waiting-quiet l ql e)
  on_longpress_timeout-Sound h (three t u v js r l k es ql qk o a) b e =
      absurd (waiting-quiet l ql e)
  on_longpress_timeout-Sound h (tap g t ts js r l k es i ql qk o a) b e =
      absurd (waiting-quiet l ql e)
  on_longpress_timeout-Sound h (dead t ts js w r l k es (inl ql) o a) b e =
      absurd (waiting-quiet l ql e)
  on_longpress_timeout-Sound h (dead t ts js w r l k es (inr (qk, c)) o a) b e =
      rw c (long_start t ts js r k es qk o a (rw c at b))
  on_longpress_timeout-Sound h (held g t ts js w r l k es i ql qk o s a) b e =
      absurd (waiting-quiet l ql e)

  two_start :
      (p : Bool) (t : Touch) (ts : List Touch) (js : List ℕ) (w : Bool) (r : ℕ) (l : Timer)
      (es : List GestureEvent)
      → IsQuiet l
      → Told strict none es
      → (strict ≡ true → w ≡ false)
      → some_active (t ∷ ts) ≡ true
      → Tally down js (t ∷ ts) w
      → EndsIn (Sound strict down) (
          then_do
            (push_event gesturestart
              (handler (if p then flag pinch else flag twodrag) (t ∷ ts) js w r l expired es))
            (push_event gesturemove))
  two_start true t ts js w r l es ql o s a b =
      start-Sound pinch t ts js w r l expired es tt ql tt o s a b
  two_start false t ts js w r l es ql o s a b =
      start-Sound twodrag t ts js w r l expired es tt ql tt o s a b

  -- the callback of the timeout for two touches, when it is due
  pub on_two_touch_timeout-Sound :
      (h : Handler)
      → Stage strict h
      → Tally down h.ignored h.tracked h.waiting_release
      → h.two_touch_timeout ≡ waiting
      → (strict ≡ true → h.waiting_release ≡ false)
      → EndsIn (Sound strict down) (on_two_touch_timeout (record h { two_touch_timeout = expired }))
  unfolding on_two_touch_timeout
  on_two_touch_timeout-Sound h (idle r l k es ql qk o) b e s = absurd (waiting-quiet k qk e)
  on_two_touch_timeout-Sound h (draining js w r l k es ql qk o f) b e s =
      absurd (waiting-quiet k qk e)
  on_two_touch_timeout-Sound h (one t js r l k es qk o a) b e s = absurd (waiting-quiet k qk e)
  on_two_touch_timeout-Sound h (two t u js r l k es ql qk o a) b e s = absurd (waiting-quiet k qk e)
  on_two_touch_timeout-Sound h (moved t u js r l k es ql o a) b e s =
      two_start (is_pinching t (u ∷ [])) t (u ∷ []) js false r l es ql o s a b
  on_two_touch_timeout-Sound h (three t u v js r l k es ql qk o a) b e s =
      absurd (waiting-quiet k qk e)
  on_two_touch_timeout-Sound h (tap g t ts js r l k es i ql qk o a) b e s =
      absurd (waiting-quiet k qk e)
  on_two_touch_timeout-Sound h (dead t ts js w r l k es (inl ql) o a) b e s =
      two_start (is_pinching t ts) t ts js w r l es ql o s a b
  on_two_touch_timeout-Sound h (dead t ts js w r l k es (inr (qk, c)) o a) b e s =
      absurd (waiting-quiet k qk e)
  on_two_touch_timeout-Sound h (held g t ts js w r l k es i ql qk o s' a) b e s =
      absurd (waiting-quiet k qk e)
