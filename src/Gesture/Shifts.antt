-- ===== src/Gesture/Shifts.antt =====
-- A touch that moves keeps the stage and the book of core/input/gesturehandler.js.
use proxmox_self_service_por.Prelude.{
  ℕ, suc, ◌≡◌, refl, ap, length, none, Bool, true, false, List, [], ◌∷◌, ◌==◌, arith, if◌then◌else◌,
}
use proxmox_self_service_por.Prelude.Int.{ℤ}
use proxmox_self_service_por.Gesture.Flags.{threetap, flag, init_state}
use proxmox_self_service_por.Gesture.Touches.{Touch, some_active, update, move_to}
use proxmox_self_service_por.Gesture.State.{Handler, Timer, GestureEvent}
use proxmox_self_service_por.Gesture.Handler.{touch_move}
use proxmox_self_service_por.Gesture.Counts.{Steady, active_ids-update, active_ids-some}
use proxmox_self_service_por.Gesture.Stage.{
  Stage, idle, draining, one, two, moved, three, tap, dead, held, Sound, EndsIn, IsQuiet, Told,
  handler, two_flags, moved_flags,
}
use proxmox_self_service_por.Gesture.Tallies.{move-Tally}
use proxmox_self_service_por.Gesture.Moves.{move_found-Sound}

move_to-Steady : (x y : ℤ) → Steady (move_to x y)
unfolding move_to
move_to-Steady x y = record { same_id = λ t. ground arith; same_active = λ t. ground arith }

active-update :
    {f : Touch → Touch} (s : Steady f) (id : ℕ) (ts : List Touch)
    → some_active ts ≡ true
    → some_active (update id f ts) ≡ true
active-update s id ts h =
    grind (arith, active_ids-some ts, active_ids-some (update id _ ts), active_ids-update s id ts)

length-update : (f : Touch → Touch) (id : ℕ) (ts : List Touch) → length (update id f ts) ≡ length ts
length-update f id [] = refl
length-update f id (t ∷ ts) = go (t.id == id) (length-update f id ts)
  where
    go :
        (b : Bool)
        → length (update id f ts) ≡ length ts
        → length ((if b then f t else t) ∷ (if b then ts else update id f ts)) ≡ length (t ∷ ts)
    go true ih = refl
    go false ih = ap suc ih

module _ (strict : Bool) where
  -- the stages with one, two and three touches, by the length of the list
  one_of :
      (ts : List Touch) (js : List ℕ) (r : ℕ) (l k : Timer) (es : List GestureEvent)
      → length ts ≡ 1
      → IsQuiet k
      → Told strict none es
      → some_active ts ≡ true
      → Stage strict (handler init_state ts js false r l k es)
  one_of [] js r l k es n qk o a = absurd (cc n)
  one_of (t ∷ []) js r l k es n qk o a = one t js r l k es qk o a
  one_of (t ∷ u ∷ us) js r l k es n qk o a = absurd (omega (arith, n))

  two_of :
      (ts : List Touch) (js : List ℕ) (r : ℕ) (l k : Timer) (es : List GestureEvent)
      → length ts ≡ 2
      → IsQuiet l
      → IsQuiet k
      → Told strict none es
      → some_active ts ≡ true
      → Stage strict (handler two_flags ts js false r l k es)
  two_of [] js r l k es n ql qk o a = absurd (cc n)
  two_of (t ∷ []) js r l k es n ql qk o a = absurd (omega (arith, n))
  two_of (t ∷ u ∷ []) js r l k es n ql qk o a = two t u js r l k es ql qk o a
  two_of (t ∷ u ∷ v ∷ us) js r l k es n ql qk o a = absurd (omega (arith, n))

  moved_of :
      (ts : List Touch) (js : List ℕ) (r : ℕ) (l k : Timer) (es : List GestureEvent)
      → length ts ≡ 2
      → IsQuiet l
      → Told strict none es
      → some_active ts ≡ true
      → Stage strict (handler moved_flags ts js false r l k es)
  moved_of [] js r l k es n ql o a = absurd (cc n)
  moved_of (t ∷ []) js r l k es n ql o a = absurd (omega (arith, n))
  moved_of (t ∷ u ∷ []) js r l k es n ql o a = moved t u js r l k es ql o a
  moved_of (t ∷ u ∷ v ∷ us) js r l k es n ql o a = absurd (omega (arith, n))

  three_of :
      (ts : List Touch) (js : List ℕ) (r : ℕ) (l k : Timer) (es : List GestureEvent)
      → length ts ≡ 3
      → IsQuiet l
      → IsQuiet k
      → Told strict none es
      → some_active ts ≡ true
      → Stage strict (handler (flag threetap) ts js false r l k es)
  three_of [] js r l k es n ql qk o a = absurd (cc n)
  three_of (t ∷ []) js r l k es n ql qk o a = absurd (omega (arith, n))
  three_of (t ∷ u ∷ []) js r l k es n ql qk o a = absurd (omega (arith, n))
  three_of (t ∷ u ∷ v ∷ []) js r l k es n ql qk o a = three t u v js r l k es ql qk o a
  three_of (t ∷ u ∷ v ∷ z ∷ us) js r l k es n ql qk o a = absurd (omega (arith, n))

  moved-Stage :
      (id : ℕ) (x y : ℤ) (h : Handler)
      → Stage strict h
      → Stage strict (record h { tracked = update id (move_to x y) h.tracked })
  moved-Stage id x y h (idle r l k es ql qk o) = idle r l k es ql qk o
  moved-Stage id x y h (draining js w r l k es ql qk o f) = draining js w r l k es ql qk o f
  moved-Stage id x y h (one t js r l k es qk o a) =
      one_of (update id (move_to x y) (t ∷ [])) js r l k es
        (length-update (move_to x y) id (t ∷ [])) qk o
        (active-update (move_to-Steady x y) id (t ∷ []) a)
  moved-Stage id x y h (two t u js r l k es ql qk o a) =
      two_of (update id (move_to x y) (t ∷ u ∷ [])) js r l k es
        (length-update (move_to x y) id (t ∷ u ∷ [])) ql qk o
        (active-update (move_to-Steady x y) id (t ∷ u ∷ []) a)
  moved-Stage id x y h (moved t u js r l k es ql o a) =
      moved_of (update id (move_to x y) (t ∷ u ∷ [])) js r l k es
        (length-update (move_to x y) id (t ∷ u ∷ [])) ql o
        (active-update (move_to-Steady x y) id (t ∷ u ∷ []) a)
  moved-Stage id x y h (three t u v js r l k es ql qk o a) =
      three_of (update id (move_to x y) (t ∷ u ∷ v ∷ [])) js r l k es
        (length-update (move_to x y) id (t ∷ u ∷ v ∷ [])) ql qk o
        (active-update (move_to-Steady x y) id (t ∷ u ∷ v ∷ []) a)
  moved-Stage id x y h (tap g t ts js r l k es i ql qk o a) =
      tap g _ _ js r l k es i ql qk o (active-update (move_to-Steady x y) id (t ∷ ts) a)
  moved-Stage id x y h (dead t ts js w r l k es q o a) =
      dead _ _ js w r l k es q o (active-update (move_to-Steady x y) id (t ∷ ts) a)
  moved-Stage id x y h (held g t ts js w r l k es i ql qk o s a) =
      held g _ _ js w r l k es i ql qk o s (active-update (move_to-Steady x y) id (t ∷ ts) a)

  pub touch_move-Sound :
      (down : List ℕ) (id : ℕ) (x y : ℤ) (h : Handler)
      → Sound strict down h
      → EndsIn (Sound strict down) (touch_move id x y h)
  unfolding touch_move
  touch_move-Sound down id x y h s =
      move_found-Sound strict down id (record h { tracked = update id (move_to x y) h.tracked })
        (moved-Stage id x y h s.stage) (move-Tally s.tally (move_to-Steady x y) id)
