-- ===== src/Gesture/Runs.antt =====
-- What may happen to a handler of core/input/gesturehandler.js, in any order: touches that the browser
-- reports, and timeouts that are due.
use proxmox_self_service_por.Prelude.{
  ℕ, ◌≡◌, refl, sym, ap, Bool, true, false, Option, none, some, List, [], ◌∷◌, arith, if◌then◌else◌,
}
use proxmox_self_service_por.Gesture.Flags.{
  Gesture, onetap, twotap, threetap, drag, longpress, twodrag, pinch, flag, init_state, is_single,
  state_to_gesture, invert,
}
use proxmox_self_service_por.Gesture.Touches.{Touch, some_active, has, remove, is_nil, active_ids}
use proxmox_self_service_por.Gesture.State.{
  Timer, waiting, expired, Handler, Result, returned, thrown, new_handler, attach, detach,
}
use proxmox_self_service_por.Gesture.Handler.{
  has_detected_gesture, on_longpress_timeout, on_two_touch_timeout, TouchType, touchstart,
  touchmove, touchend, touchcancel, Contact, handle_touch, event_handler,
}
use proxmox_self_service_por.Gesture.Counts.{count, is_nil-count, active_ids-some}
use proxmox_self_service_por.Gesture.Stage.{
  Stage, idle, draining, one, two, moved, three, tap, dead, held, Tally, Sound, EndsIn, IsQuiet,
  tell, returned-EndsIn, then-EndsIn,
}
use proxmox_self_service_por.Gesture.Starts.{touch_start-Sound, detected_held, detected_tap}
use proxmox_self_service_por.Gesture.Pushes.{on_longpress_timeout-Sound, on_two_touch_timeout-Sound}
use proxmox_self_service_por.Gesture.Shifts.{touch_move-Sound}
use proxmox_self_service_por.Gesture.Ends.{touch_end-Sound}

-- The touches that are down after an event, and what the browser reports: a touch that starts was not
-- down, and one that ends was.
abbrev pub after_touches : TouchType → List Contact → List ℕ → List ℕ
after_touches type [] down = down
after_touches touchstart (c ∷ cs) down = after_touches touchstart cs (c.identifier ∷ down)
after_touches touchmove (c ∷ cs) down = after_touches touchmove cs down
after_touches touchend (c ∷ cs) down = after_touches touchend cs (remove c.identifier down)
after_touches touchcancel (c ∷ cs) down = after_touches touchcancel cs (remove c.identifier down)

abbrev pub MayTouch : TouchType → List Contact → List ℕ → Type 0
MayTouch type [] down = Unit
MayTouch touchstart (c ∷ cs) down =
    (count c.identifier down ≡ 0) × MayTouch touchstart cs (c.identifier ∷ down)
MayTouch touchmove (c ∷ cs) down = MayTouch touchmove cs down
MayTouch touchend (c ∷ cs) down =
    (has c.identifier down ≡ true) × MayTouch touchend cs (remove c.identifier down)
MayTouch touchcancel (c ∷ cs) down =
    (has c.identifier down ≡ true) × MayTouch touchcancel cs (remove c.identifier down)

-- How a handler that is new and attached may come to be, with the touches that are down; in a strict
-- run the timeout of two touches does not come while the handler waits for releases.
pub data Reached (strict : Bool) : List ℕ → Result → Type 0 where
  fresh : Reached strict [] (returned (attach new_handler))
  touched :
      (type : TouchType) (cs : List Contact) (now : ℕ) (down : List ℕ) (h : Handler)
      → Reached strict down (returned h)
      → MayTouch type cs down
      → Reached strict (after_touches type cs down) (event_handler type cs now h)
  longpress_due :
      (down : List ℕ) (h : Handler)
      → Reached strict down (returned h)
      → h.longpress_timeout ≡ waiting
      → Reached strict down (on_longpress_timeout (record h { longpress_timeout = expired }))
  two_touch_due :
      (down : List ℕ) (h : Handler)
      → Reached strict down (returned h)
      → h.two_touch_timeout ≡ waiting
      → (strict ≡ true → h.waiting_release ≡ false)
      → Reached strict down (on_two_touch_timeout (record h { two_touch_timeout = expired }))

touch-Sound :
    (strict : Bool) (type : TouchType) (cs : List Contact) (now : ℕ) (down : List ℕ) (h : Handler)
    → Sound strict down h
    → MayTouch type cs down
    → EndsIn (Sound strict (after_touches type cs down)) (event_handler type cs now h)
touch-Sound strict type [] now down h s m = returned-EndsIn s
touch-Sound strict touchstart (c ∷ cs) now down h s m =
    then-EndsIn (handle_touch touchstart c now h) (event_handler touchstart cs now)
      (touch_start-Sound strict down c.identifier c.client_x c.client_y now h s.stage s.tally m.0)
      (λ h' s'. touch-Sound strict touchstart cs now (c.identifier ∷ down) h' s' m.1)
touch-Sound strict touchmove (c ∷ cs) now down h s m =
    then-EndsIn (handle_touch touchmove c now h) (event_handler touchmove cs now)
      (touch_move-Sound strict down c.identifier c.client_x c.client_y h s)
      (λ h' s'. touch-Sound strict touchmove cs now down h' s' m)
touch-Sound strict touchend (c ∷ cs) now down h s m =
    then-EndsIn (handle_touch touchend c now h) (event_handler touchend cs now)
      (touch_end-Sound strict down c.identifier now h s.stage s.tally m.0)
      (λ h' s'. touch-Sound strict touchend cs now (remove c.identifier down) h' s' m.1)
touch-Sound strict touchcancel (c ∷ cs) now down h s m =
    then-EndsIn (handle_touch touchcancel c now h) (event_handler touchcancel cs now)
      (touch_end-Sound strict down c.identifier now h s.stage s.tally m.0)
      (λ h' s'. touch-Sound strict touchcancel cs now (remove c.identifier down) h' s' m.1)

pub reached-Sound :
    (strict : Bool) (down : List ℕ) (r : Result)
    → Reached strict down r
    → EndsIn (Sound strict down) r
unfolding attach detach
reached-Sound strict down r fresh = returned-EndsIn (record {
  stage = idle 0 Timer.unset Timer.unset [] tt tt (λ s. refl);
  tally = record { split = λ i. omega arith; once = λ i. omega arith; present = λ e i. refl };
})
reached-Sound strict down r (touched type cs now d h p m) =
    touch-Sound strict type cs now d h (reached-Sound strict d (returned h) p).holds m
reached-Sound strict down r (longpress_due d h p e) =
    let s = (reached-Sound strict d (returned h) p).holds in
    on_longpress_timeout-Sound strict d h s.stage s.tally e
reached-Sound strict down r (two_touch_due d h p e q) =
    let s = (reached-Sound strict d (returned h) p).holds in
    on_two_touch_timeout-Sound strict d h s.stage s.tally e q

returned_of : (P : Handler → Type 0) (r : Result) → EndsIn P r → (h : Handler) × (r ≡ returned h)
returned_of P (returned h) p = (h, refl)
returned_of P (thrown e h) p = absurd p.holds

-- A handler never throws, whatever touches and timeouts come in whatever order, as long as a touch
-- that starts was not down and one that ends was.
pub never_throws :
    (down : List ℕ) (r : Result) → Reached false down r → (h : Handler) × (r ≡ returned h)
never_throws down r p = returned_of (Sound false down) r (reached-Sound false down r p)

pub record IsIdle (h : Handler) : Type 0 where
  pub state : h.state ≡ init_state
  pub tracked : h.tracked ≡ []
  pub ignored : h.ignored ≡ []
  pub waiting_release : h.waiting_release ≡ false
  pub longpress_timeout : IsQuiet h.longpress_timeout
  pub two_touch_timeout : IsQuiet h.two_touch_timeout

none_active :
    (ts : List Touch) → ((i : ℕ) → 0 ≡ count i (active_ids ts)) → some_active ts ≡ true → ⊥
none_active ts z a =
    let e : active_ids ts ≡ [] = is_nil-count (active_ids ts) (λ i. sym (z i)) in
    let n : is_nil (active_ids ts) ≡ true = ap is_nil e in cc (n, active_ids-some ts, ap invert a)

-- with no touch down, none is tracked and active
module _ {js : List ℕ} {ts : List Touch} {w : Bool} (b : Tally [] js ts w) where
  none_tracked : some_active ts ≡ true → ⊥
  none_tracked a = none_active ts (λ i. omega (arith, b.split i)) a

  none_ignored : is_nil js ≡ false → ⊥
  none_ignored f =
      let e : js ≡ [] = is_nil-count js (λ i. omega (arith, b.split i)) in cc (ap is_nil e, f)

state_to_gesture-flag : (g : Gesture) → state_to_gesture (flag g) ≡ some g
unfolding state_to_gesture
state_to_gesture-flag onetap = refl
state_to_gesture-flag twotap = refl
state_to_gesture-flag threetap = refl
state_to_gesture-flag drag = refl
state_to_gesture-flag longpress = refl
state_to_gesture-flag twodrag = refl
state_to_gesture-flag pinch = refl

-- the gesture that a handler has detected
abbrev pub going_on : Handler → Option Gesture
going_on h = if has_detected_gesture h then state_to_gesture h.state else none

events_of_stage : (h : Handler) → Stage true h → tell h.events ≡ some (going_on h)
unfolding has_detected_gesture is_single
events_of_stage h (idle r l k es ql qk o) = o refl
events_of_stage h (draining js w r l k es ql qk o f) = o refl
events_of_stage h (one t js r l k es qk o a) = o refl
events_of_stage h (two t u js r l k es ql qk o a) = o refl
events_of_stage h (moved t u js r l k es ql o a) = o refl
events_of_stage h (three t u v js r l k es ql qk o a) = rw a (o refl)
events_of_stage h (tap g t ts js r l k es i ql qk o a) = rw (detected_tap g h i, a) (o refl)
events_of_stage h (dead t ts js w r l k es q o a) = o refl
events_of_stage h (held g t ts js w r l k es i ql qk o s a) =
    rw (detected_held g h i, state_to_gesture-flag g) (o refl)

-- The events of a handler are in order: a gesture starts when no other goes on, its moves and its end
-- are of the gesture that goes on, and that is the gesture the handler has detected. The timeout of two
-- touches must not come while the handler waits for releases.
pub events_in_order :
    (down : List ℕ) (h : Handler)
    → Reached true down (returned h)
    → tell h.events ≡ some (going_on h)
events_in_order down h p = events_of_stage h (reached-Sound true down (returned h) p).holds.stage

told_when_lifted :
    (h : Handler)
    → Stage true h
    → Tally [] h.ignored h.tracked h.waiting_release
    → tell h.events ≡ some none
told_when_lifted h (idle r l k es ql qk o) b = o refl
told_when_lifted h (draining js w r l k es ql qk o f) b = absurd (none_ignored b f)
told_when_lifted h (one t js r l k es qk o a) b = absurd (none_tracked b a)
told_when_lifted h (two t u js r l k es ql qk o a) b = absurd (none_tracked b a)
told_when_lifted h (moved t u js r l k es ql o a) b = absurd (none_tracked b a)
told_when_lifted h (three t u v js r l k es ql qk o a) b = absurd (none_tracked b a)
told_when_lifted h (tap g t ts js r l k es i ql qk o a) b = absurd (none_tracked b a)
told_when_lifted h (dead t ts js w r l k es q o a) b = absurd (none_tracked b a)
told_when_lifted h (held g t ts js w r l k es i ql qk o s a) b = absurd (none_tracked b a)

-- Once no touch is down no gesture goes on.
pub lifted-told : (h : Handler) → Reached true [] (returned h) → tell h.events ≡ some none
lifted-told h p =
    let s = (reached-Sound true [] (returned h) p).holds in told_when_lifted h s.stage s.tally
