-- ===== src/Gesture/Moves.antt =====
-- `_touchMove` of core/input/gesturehandler.js through the stages.
use proxmox_self_service_por.Prelude.{
  ℕ, ◌+◌, ◌≤◌, ◌≡◌, refl, inl, Bool, true, false, Option, none, some, List, [], ◌∷◌, ◌==◌, arith,
  if◌then◌else◌,
}
use proxmox_self_service_por.Gesture.Flags.{
  Gesture, bit, onetap, twotap, threetap, drag, longpress, twodrag, pinch, flag, is_single, join,
  drop_flags, no_gesture,
}
use proxmox_self_service_por.Gesture.Touches.{
  Touch, some_active, find, find_other, is_opposite, moved_less, moved_more,
}
use proxmox_self_service_por.Gesture.State.{
  Timer, unset, waiting, expired, gesturemove, Handler, returned, then_do, GestureEvent, is_set,
  stop_two_touch_timeout, start_two_touch_timeout,
}
use proxmox_self_service_por.Gesture.Handler.{
  has_detected_gesture, taps, drop_counted, choose, announce_move, move_found, drop_state,
}
use proxmox_self_service_por.Gesture.Counts.{count, ids}
use proxmox_self_service_por.Gesture.Stage.{
  Stage, idle, draining, one, two, moved, three, tap, dead, held, handler, moved_flags, Tally,
  Sound, EndsIn, IsTap, Told, returned-EndsIn, if-EndsIn,
}
use proxmox_self_service_por.Gesture.Starts.{detected_held, detected_tap}
use proxmox_self_service_por.Gesture.Pushes.{start-Sound, push_event-flag, pushed_event, move-Told}

drop_taps : (g : Gesture) → IsTap g → drop_flags (flag g) (join taps (flag longpress)) ≡ no_gesture
drop_taps onetap i = refl
drop_taps twotap i = refl
drop_taps threetap i = refl
drop_taps drag i = absurd i
drop_taps longpress i = absurd i
drop_taps twodrag i = absurd i
drop_taps pinch i = absurd i

-- Two touches that are tracked have different numbers.
find_other-two :
    (id : ℕ) (t u : Touch)
    → count id (ids (t ∷ u ∷ [])) ≤ 1
    → (v : Touch) × (find_other id (t ∷ u ∷ []) ≡ some v)
find_other-two id t u h = go (t.id == id) (u.id == id) h
  where
    go :
        (a b : Bool)
        → bit a + (bit b + 0) ≤ 1
        → (v : Touch) × ((if a then (if b then none else some u) else some t) ≡ some v)
    go true true k = absurd (omega arith)
    go true false k = (u, refl)
    go false b k = (t, refl)

module _ (strict : Bool) (down : List ℕ) where
  found-EndsIn :
      (id : ℕ) (o : Option Touch) (h : Handler)
      → EndsIn (Sound strict down) (returned h)
      → ((t : Touch) → EndsIn (Sound strict down) (move_found id (some t) h))
      → EndsIn (Sound strict down) (move_found id o h)
  found-EndsIn id none h n s = n
  found-EndsIn id (some t) h n s = s t

  -- two touches, neither of which can be a tap
  chosen :
      (far against : Bool) (t u : Touch) (js : List ℕ) (r : ℕ) (k : Timer) (es : List GestureEvent)
      → Told strict none es
      → some_active (t ∷ u ∷ []) ≡ true
      → Tally down js (t ∷ u ∷ []) false
      → (let h : Handler = handler moved_flags (t ∷ u ∷ []) js false r unset k es in
          EndsIn (Sound strict down) (
            announce_move (
              if far
              then stop_two_touch_timeout
                  (drop_state (if against then flag twodrag else flag pinch) h)
              else if is_set k
              then h
              else start_two_touch_timeout h)))
  unfolding announce_move has_detected_gesture is_single
  chosen true true t u js r k es o a b =
      start-Sound strict down pinch t (u ∷ []) js false r unset unset es tt tt tt o (λ _. refl) a b
  chosen true false t u js r k es o a b =
      start-Sound strict down twodrag t (u ∷ []) js false r unset unset es tt tt tt o (λ _. refl) a
        b
  chosen false against t u js r unset es o a b =
      returned-EndsIn (record { stage = moved t u js r unset waiting es tt o a; tally = b })
  chosen false against t u js r waiting es o a b =
      returned-EndsIn (record { stage = moved t u js r unset waiting es tt o a; tally = b })
  chosen false against t u js r expired es o a b =
      returned-EndsIn (record { stage = moved t u js r unset expired es tt o a; tally = b })

  two_moved :
      (id : ℕ) (m t u : Touch) (js : List ℕ) (r : ℕ) (k : Timer) (es : List GestureEvent)
      → Told strict none es
      → some_active (t ∷ u ∷ []) ≡ true
      → Tally down js (t ∷ u ∷ []) false
      → EndsIn (Sound strict down) (
          then_do
            (choose id m (t ∷ u ∷ []) (handler moved_flags (t ∷ u ∷ []) js false r unset k es))
            announce_move)
  two_moved id m t u js r k es o a b =
      let (v, e) = find_other-two id t u (b.once id) in
      rw e (chosen (moved_more v) (is_opposite m v) t u js r k es o a b)

  dead_chosen :
      (far against : Bool) (t u : Touch) (js : List ℕ) (w : Bool) (r : ℕ) (k : Timer)
      (es : List GestureEvent)
      → Told strict none es
      → some_active (t ∷ u ∷ []) ≡ true
      → Tally down js (t ∷ u ∷ []) w
      → (let h : Handler = handler no_gesture (t ∷ u ∷ []) js w r unset k es in
          EndsIn (Sound strict down) (
            announce_move (
              if far
              then stop_two_touch_timeout
                  (drop_state (if against then flag twodrag else flag pinch) h)
              else if is_set k
              then h
              else start_two_touch_timeout h)))
  unfolding announce_move has_detected_gesture is_single
  dead_chosen true against t u js w r k es o a b =
      returned-EndsIn
        (record { stage = dead t (u ∷ []) js w r unset unset es (inl tt) o a; tally = b })
  dead_chosen false against t u js w r unset es o a b =
      returned-EndsIn
        (record { stage = dead t (u ∷ []) js w r unset waiting es (inl tt) o a; tally = b })
  dead_chosen false against t u js w r waiting es o a b =
      returned-EndsIn
        (record { stage = dead t (u ∷ []) js w r unset waiting es (inl tt) o a; tally = b })
  dead_chosen false against t u js w r expired es o a b =
      returned-EndsIn
        (record { stage = dead t (u ∷ []) js w r unset expired es (inl tt) o a; tally = b })

  -- nothing is left but a timeout that may start
  dead_moved :
      (id : ℕ) (m t : Touch) (ts : List Touch) (js : List ℕ) (w : Bool) (r : ℕ) (k : Timer)
      (es : List GestureEvent)
      → Told strict none es
      → some_active (t ∷ ts) ≡ true
      → Tally down js (t ∷ ts) w
      → EndsIn (Sound strict down) (
          then_do
            (choose id m
              (t ∷ ts)
              (drop_counted (t ∷ ts) (handler no_gesture (t ∷ ts) js w r unset k es)))
            announce_move)
  unfolding announce_move has_detected_gesture is_single
  dead_moved id m t [] js w r k es o a b =
      returned-EndsIn (record { stage = dead t [] js w r unset k es (inl tt) o a; tally = b })
  dead_moved id m t (u ∷ []) js w r k es o a b =
      let (v, e) = find_other-two id t u (b.once id) in
      rw e (dead_chosen (moved_more v) (is_opposite m v) t u js w r k es o a b)
  dead_moved id m t (u ∷ v ∷ ts) js w r k es o a b =
      returned-EndsIn
        (record { stage = dead t (u ∷ v ∷ ts) js w r unset k es (inl tt) o a; tally = b })

  pub move_found-Sound :
      (id : ℕ) (h : Handler)
      → Stage strict h
      → Tally down h.ignored h.tracked h.waiting_release
      → EndsIn (Sound strict down) (move_found id (find id h.tracked) h)
  unfolding announce_move has_detected_gesture is_single
  move_found-Sound id h (idle r l k es ql qk o) b =
      returned-EndsIn (record { stage = idle r l k es ql qk o; tally = b })
  move_found-Sound id h (draining js w r l k es ql qk o f) b =
      returned-EndsIn (record { stage = draining js w r l k es ql qk o f; tally = b })
  move_found-Sound id h (one t js r l k es qk o a) b =
      let same = returned-EndsIn (record { stage = one t js r l k es qk o a; tally = b }) in
      found-EndsIn id (find id (t ∷ [])) h same (λ m.
        if-EndsIn (moved_less m) same
          (start-Sound strict down drag t [] js false r unset k es tt tt qk o (λ _. refl) a b))
  move_found-Sound id h (two t u js r l k es ql qk o a) b =
      let same = returned-EndsIn (record { stage = two t u js r l k es ql qk o a; tally = b }) in
      found-EndsIn id (find id (t ∷ u ∷ [])) h same
        (λ m. if-EndsIn (moved_less m) same (two_moved id m t u js r k es o a b))
  move_found-Sound id h (moved t u js r l k es ql o a) b =
      let same = returned-EndsIn (record { stage = moved t u js r l k es ql o a; tally = b }) in
      found-EndsIn id (find id (t ∷ u ∷ [])) h same
        (λ m. if-EndsIn (moved_less m) same (two_moved id m t u js r k es o a b))
  move_found-Sound id h (three t u v js r l k es ql qk o a) b =
      let same =
        returned-EndsIn (record { stage = three t u v js r l k es ql qk o a; tally = b }) in
      found-EndsIn id (find id (t ∷ u ∷ v ∷ [])) h same (λ m. rw a (
        if-EndsIn (moved_less m) same (
          returned-EndsIn (record {
            stage = dead t (u ∷ v ∷ []) js false r unset k es (inl tt) o a;
            tally = b;
          }))))
  move_found-Sound id h (tap g t ts js r l k es i ql qk o a) b =
      let same =
        returned-EndsIn (record { stage = tap g t ts js r l k es i ql qk o a; tally = b }) in
      found-EndsIn id (find id (t ∷ ts)) h same (λ m.
        rw (detected_tap g h i, a)
          (if-EndsIn (moved_less m) same
            (rw (drop_taps g i) (dead_moved id m t ts js true r k es o a b))))
  move_found-Sound id h (dead t ts js w r l k es q o a) b =
      let same = returned-EndsIn (record { stage = dead t ts js w r l k es q o a; tally = b }) in
      found-EndsIn id (find id (t ∷ ts)) h same
        (λ m. if-EndsIn (moved_less m) same (dead_moved id m t ts js w r k es o a b))
  move_found-Sound id h (held g t ts js w r l k es i ql qk o s a) b =
      let same =
        returned-EndsIn (record { stage = held g t ts js w r l k es i ql qk o s a; tally = b }) in
      found-EndsIn id (find id (t ∷ ts)) h same (λ m.
        rw (detected_held g h i, push_event-flag gesturemove g t ts js w r l k es)
          (returned-EndsIn (record {
            stage =
                held g t ts js w r l k (pushed_event gesturemove g t ts ∷ es) i ql qk
                  (move-Told strict g t ts es o) s a;
            tally = b;
          })))
