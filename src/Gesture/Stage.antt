-- ===== src/Gesture/Stage.antt =====
-- The stages that a handler of core/input/gesturehandler.js goes through, and its book of the touches.
use proxmox_self_service_por.Prelude.{
  ℕ, ◌+◌, ◌≤◌, ◌≡◌, ◌⊎◌, Bool, true, false, Option, none, some, List, [], ◌∷◌, ◌==◌, if◌then◌else◌,
}
use proxmox_self_service_por.Gesture.Flags.{
  Gesture, onetap, twotap, threetap, drag, longpress, twodrag, pinch, Flags, flags, flag, mask,
  no_gesture, init_state,
}
use proxmox_self_service_por.Gesture.Touches.{Touch, some_active, is_nil, active_ids}
use proxmox_self_service_por.Gesture.State.{
  EventType, gesturestart, gesturemove, gestureend, GestureEvent, Timer, unset, waiting, expired,
  Handler, Result, returned, thrown, then_do,
}
use proxmox_self_service_por.Gesture.Counts.{count, ids}

-- What the events tell, the newest first: the gesture that goes on, or `none` where an event is not
-- due. A gesture starts when no other goes on; its moves and its end are of the gesture that goes on.
abbrev pub follow : EventType → Gesture → Option Gesture → Option (Option Gesture)
follow gesturestart g none = some (some g)
follow gesturestart g (some k) = none
follow gesturemove g none = none
follow gesturemove g (some k) = if mask (flag g) == mask (flag k) then some (some k) else none
follow gestureend g none = none
follow gestureend g (some k) = if mask (flag g) == mask (flag k) then some none else none

abbrev pub tell_next : EventType → Gesture → Option (Option Gesture) → Option (Option Gesture)
tell_next type g none = none
tell_next type g (some o) = follow type g o

abbrev pub tell : List GestureEvent → Option (Option Gesture)
tell [] = some none
tell (e ∷ es) = tell_next e.type e.detail.gesture (tell es)

-- `strict` runs are those of whose events more is known.
abbrev pub Told : Bool → Option Gesture → List GestureEvent → Type 0
Told strict o es = strict ≡ true → tell es ≡ some o

abbrev pub IsQuiet : Timer → Type 0
IsQuiet unset = Unit
IsQuiet waiting = ⊥
IsQuiet expired = Unit

abbrev pub IsTap : Gesture → Type 0
IsTap onetap = Unit
IsTap twotap = Unit
IsTap threetap = Unit
IsTap g = ⊥

abbrev pub IsHeld : Gesture → Type 0
IsHeld drag = Unit
IsHeld longpress = Unit
IsHeld twodrag = Unit
IsHeld pinch = Unit
IsHeld g = ⊥

abbrev pub handler :
    Flags → List Touch → List ℕ → Bool → ℕ → Timer → Timer → List GestureEvent → Handler
handler state tracked ignored w r l k events = record {
  attached = true;
  state = state;
  tracked = tracked;
  ignored = ignored;
  waiting_release = w;
  release_start = r;
  longpress_timeout = l;
  two_touch_timeout = k;
  events = events;
}

-- the gestures of two touches, all of them and those that move
abbrev pub two_flags : Flags
two_flags = flags false true true false false true true

abbrev pub moved_flags : Flags
moved_flags = flags false false false false false true true

pub data Stage (strict : Bool) : Handler → Type 0 where
  idle :
      (r : ℕ) (l k : Timer) (es : List GestureEvent)
      → IsQuiet l
      → IsQuiet k
      → Told strict none es
      → Stage strict (handler init_state [] [] false r l k es)
  draining :
      (js : List ℕ) (w : Bool) (r : ℕ) (l k : Timer) (es : List GestureEvent)
      → IsQuiet l
      → IsQuiet k
      → Told strict none es
      → is_nil js ≡ false
      → Stage strict (handler no_gesture [] js w r l k es)
  one :
      (t : Touch) (js : List ℕ) (r : ℕ) (l k : Timer) (es : List GestureEvent)
      → IsQuiet k
      → Told strict none es
      → some_active (t ∷ []) ≡ true
      → Stage strict (handler init_state (t ∷ []) js false r l k es)
  two :
      (t u : Touch) (js : List ℕ) (r : ℕ) (l k : Timer) (es : List GestureEvent)
      → IsQuiet l
      → IsQuiet k
      → Told strict none es
      → some_active (t ∷ u ∷ []) ≡ true
      → Stage strict (handler two_flags (t ∷ u ∷ []) js false r l k es)
  moved :
      (t u : Touch) (js : List ℕ) (r : ℕ) (l k : Timer) (es : List GestureEvent)
      → IsQuiet l
      → Told strict none es
      → some_active (t ∷ u ∷ []) ≡ true
      → Stage strict (handler moved_flags (t ∷ u ∷ []) js false r l k es)
  three :
      (t u v : Touch) (js : List ℕ) (r : ℕ) (l k : Timer) (es : List GestureEvent)
      → IsQuiet l
      → IsQuiet k
      → Told strict none es
      → some_active (t ∷ u ∷ v ∷ []) ≡ true
      → Stage strict (handler (flag threetap) (t ∷ u ∷ v ∷ []) js false r l k es)
  tap :
      (g : Gesture) (t : Touch) (ts : List Touch) (js : List ℕ) (r : ℕ) (l k : Timer)
      (es : List GestureEvent)
      → IsTap g
      → IsQuiet l
      → IsQuiet k
      → Told strict none es
      → some_active (t ∷ ts) ≡ true
      → Stage strict (handler (flag g) (t ∷ ts) js true r l k es)
  -- No gesture can come any more, unless a timeout runs.
  dead :
      (t : Touch) (ts : List Touch) (js : List ℕ) (w : Bool) (r : ℕ) (l k : Timer)
      (es : List GestureEvent)
      → IsQuiet l ⊎ (IsQuiet k × (w ≡ false))
      → Told strict none es
      → some_active (t ∷ ts) ≡ true
      → Stage strict (handler no_gesture (t ∷ ts) js w r l k es)
  held :
      (g : Gesture) (t : Touch) (ts : List Touch) (js : List ℕ) (w : Bool) (r : ℕ) (l k : Timer)
      (es : List GestureEvent)
      → IsHeld g
      → IsQuiet l
      → IsQuiet k
      → Told strict (some g) es
      → (strict ≡ true → w ≡ false)
      → some_active (t ∷ ts) ≡ true
      → Stage strict (handler (flag g) (t ∷ ts) js w r l k es)

-- The touches that are down are those ignored and those tracked and active, each once; a touch that is
-- tracked but not active has been released, and the handler waits for the others.
pub record Tally (down ignored : List ℕ) (tracked : List Touch) (w : Bool) : Type 0 where
  pub split : (i : ℕ) → count i down ≡ count i ignored + count i (active_ids tracked)
  pub once : (i : ℕ) → count i (ids tracked) ≤ 1
  pub present : w ≡ false → (i : ℕ) → count i (ids tracked) ≡ count i (active_ids tracked)

pub record Sound (strict : Bool) (down : List ℕ) (h : Handler) : Type 0 where
  pub stage : Stage strict h
  pub tally : Tally down h.ignored h.tracked h.waiting_release

-- A method returns, and then `P` holds.
abbrev Holds : (Handler → Type 0) → Result → Type 0
Holds P (returned h) = P h
Holds P (thrown e h) = ⊥

pub record EndsIn (P : Handler → Type 0) (r : Result) : Type 0 where
  pub holds : Holds P r

module _ {P : Handler → Type 0} where
  pub returned-EndsIn : {h : Handler} → P h → EndsIn P (returned h)
  returned-EndsIn p = record { holds = p }

  pub if-EndsIn :
      {r s : Result} (b : Bool) → EndsIn P r → EndsIn P s → EndsIn P (if b then r else s)
  if-EndsIn true p q = p
  if-EndsIn false p q = q

  pub then-EndsIn :
      {Q : Handler → Type 0} (r : Result) (f : Handler → Result)
      → EndsIn P r
      → ((h : Handler) → P h → EndsIn Q (f h))
      → EndsIn Q (then_do r f)
  then-EndsIn (returned h) f p q = q h p.holds
  then-EndsIn (thrown e h) f p q = absurd p.holds
