-- ===== src/Gesture/Ends.antt =====
-- `_touchEnd` of core/input/gesturehandler.js through the stages.
use proxmox_self_service_por.Prelude.{
  ℕ, ◌-◌, ◌≡◌, ◌∙◌, refl, ap, inl, inr, Bool, true, false, ◌||◌, none, some, List, [], ◌∷◌, ◌++◌,
  ◌==◌, arith, ltb, if◌then◌else◌, Bool-cases,
}
use proxmox_self_service_por.Gesture.Flags.{
  Gesture, onetap, twotap, threetap, Flags, flag, is_single, invert, no_gesture,
}
use proxmox_self_service_por.Gesture.Touches.{
  Touch, some_active, some_older, find, update, has, remove, active_ids,
}
use proxmox_self_service_por.Gesture.State.{
  Timer, unset, waiting, expired, gesturestart, gestureend, Handler, returned, then_do,
  GestureEvent,
}
use proxmox_self_service_por.Gesture.Handler.{
  has_detected_gesture, enter, clean_up, end_gesture, release, release_found, end_waiting,
  wait_if_open, give_up_waiting, touch_end, push_event, end_ignored,
}
use proxmox_self_service_por.Gesture.Stage.{
  Stage, idle, draining, one, two, moved, three, tap, dead, held, handler, Tally, Sound, EndsIn,
  IsHeld, IsTap, IsQuiet, Told, returned-EndsIn,
}
use proxmox_self_service_por.Gesture.Tallies.{
  tracked-once, release-Tally, clean-Tally, gone-Tally, released-gone, found,
}
use proxmox_self_service_por.Gesture.Starts.{detected_held, detected_tap, some_flag-flag}
use proxmox_self_service_por.Gesture.Pushes.{push_event-flag, pushed_event, start-Told, end-Told}
use proxmox_self_service_por.Gesture.Cleans.{
  tap_stays, count_taps-none, open_wait, keep_detected, open_late, cleaned, end_ignored-Sound,
}

module _ (strict : Bool) (down : List ℕ) (id : ℕ) (is_down : has id down ≡ true) where
  module _ (t : Touch) (ts : List Touch) (js : List ℕ) (w : Bool) (r : ℕ) (l k : Timer)
      (es : List GestureEvent) (ql : IsQuiet l) (qk : IsQuiet k) (b : Tally down js (t ∷ ts) w)
      (kept : has id js ≡ false) where
    abbrev released : List Touch
    released = update id release (t ∷ ts)

    gone : (w' : Bool) → Tally (remove id down) (remove id (js ++ active_ids released)) [] w'
    gone w' = gone-Tally (release-Tally b id is_down kept) id w' (released-gone b id is_down kept)

    cleaned_released :
        (state : Flags) (es' : List GestureEvent)
        → Told strict none es'
        → Sound strict (remove id down) (clean_up id (handler state released js true r l k es'))
    cleaned_released state es' o =
        cleaned strict (remove id down) id state released js true r l k es' ql qk o gone

    -- a touch whose end makes the handler give up
    release_dead :
        Told strict none es
        → EndsIn
            (Sound strict (remove id down))
            (release_found id (find id (t ∷ ts)) (handler no_gesture (t ∷ ts) js true r l k es))
    unfolding has_detected_gesture is_single
    release_dead o =
        let (u, e) = found b id is_down kept in
        rw e (returned-EndsIn (cleaned_released no_gesture es o))

    release_none :
        (late : Bool)
        → Told strict none es
        → (let h = handler no_gesture (t ∷ ts) js true r l k es in
            let h' = if late then enter no_gesture h else h in
            EndsIn (Sound strict (remove id down)) (release_found id (find id h'.tracked) h'))
    release_none true o = release_dead o
    release_none false o = release_dead o

    abbrev head : Touch
    head = if t.id == id then release t else t

    abbrev tail : List Touch
    tail = if t.id == id then ts else update id release ts

    abbrev last_events : Gesture → List GestureEvent
    last_events g = pushed_event gestureend g head tail ∷ pushed_event gesturestart g head tail ∷ es

    -- a gesture that is found and over with the end of a touch
    start_and_end :
        (g : Gesture)
        → ((es' : List GestureEvent)
            → has_detected_gesture (handler (flag g) released js true r l k es') ≡ true)
        → Told strict none (last_events g)
        → EndsIn (Sound strict (remove id down)) (
            then_do
              (push_event gesturestart (handler (flag g) released js true r l k es))
              (end_gesture id))
    start_and_end g detected o =
        let es' = pushed_event gesturestart g head tail ∷ es in
        rw (push_event-flag gesturestart g head tail js true r l k es) (
          rw (detected es', push_event-flag gestureend g head tail js true r l k es')
            (returned-EndsIn (cleaned_released (flag g) (last_events g) o)))

    release_tap :
        (g : Gesture) (late : Bool)
        → IsTap g
        → Told strict none es
        → (let h = handler (flag g) (t ∷ ts) js true r l k es in
            let h' = if late then enter no_gesture h else h in
            EndsIn (Sound strict (remove id down)) (release_found id (find id h'.tracked) h'))
    release_tap g true i o = release_dead o
    release_tap g false i o =
        let h = handler (flag g) released js true r l k es in
        let (u, e) = found b id is_down kept in
        rw (e, detected_tap g h i)
          (elim (Bool-cases (some_active released)) [
            | inl a ↦
                rw (a, some_flag-flag g)
                  (returned-EndsIn (record {
                    stage = tap g head tail js r l k es i ql qk o a;
                    tally = release-Tally b id is_down kept;
                  }))
            | inr a ↦ rw a (
                start_and_end g
                  (λ es'.
                    rw (detected_tap g (handler (flag g) released js true r l k es') i, a) refl)
                  (end-Told strict g head tail (pushed_event gesturestart g head tail ∷ es)
                    (start-Told strict g head tail es o)))
          ])

    -- a gesture that is held while the handler waits for releases
    release_held :
        (g : Gesture) (late : Bool)
        → IsHeld g
        → (strict ≡ true → ⊥)
        → (let h = handler (flag g) (t ∷ ts) js true r l k es in
            let h' = if late then enter no_gesture h else h in
            EndsIn (Sound strict (remove id down)) (release_found id (find id h'.tracked) h'))
    release_held g true i n = release_dead (λ s. absurd (n s))
    release_held g false i n =
        let (u, e) = found b id is_down kept in
        rw (e, detected_held g (handler (flag g) released js true r l k es) i)
          (start_and_end g (λ es'. detected_held g (handler (flag g) released js true r l k es') i)
            (λ s. absurd (n s)))

    -- the end of a touch ends a gesture that is held
    end_held :
        (g : Gesture)
        → IsHeld g
        → Told strict (some g) es
        → EndsIn
            (Sound strict (remove id down))
            (end_gesture id (handler (flag g) (t ∷ ts) js w r l k es))
    end_held g i o =
        rw
          (
            detected_held g (handler (flag g) (t ∷ ts) js w r l k es) i,
            push_event-flag gestureend g t ts js w r l k es,
          )
          (returned-EndsIn (
            cleaned strict (remove id down) id (flag g) (t ∷ ts) js w r l k
              (pushed_event gestureend g t ts ∷ es) ql qk (end-Told strict g t ts es o)
              (λ w'. clean-Tally b id w' is_down)))

  -- one touch that is not ignored, with its end
  not_untracked : (js : List ℕ) (w : Bool) → Tally down js [] w → has id js ≡ false → ⊥
  not_untracked js w b kept = omega (arith, tracked-once b id is_down kept)

  module _ (now : ℕ) (t : Touch) (ts : List Touch) (js : List ℕ) (es : List GestureEvent) (w : Bool)
      (b : Tally down js (t ∷ ts) w) (e : has id js ≡ false) (o : Told strict none es) where
    abbrev too_late : ℕ → Bool
    too_late r = ltb 250 (now - r) || some_older 1000 now (t ∷ ts)

    ends_tap :
        (g : Gesture) (r : ℕ)
        → IsTap g
        → EndsIn
            (Sound strict (remove id down))
            (end_waiting id now (handler (flag g) (t ∷ ts) js true r unset unset es))
    ends_tap g r i = release_tap t ts js w r unset unset es tt tt b e g (too_late r) i o

    ends_none :
        (r : ℕ)
        → EndsIn
            (Sound strict (remove id down))
            (end_waiting id now (handler no_gesture (t ∷ ts) js true r unset unset es))
    ends_none r = release_none t ts js w r unset unset es tt tt b e (too_late r) o

    -- nothing can come any more
    ends_dead :
        (v : Bool) (r : ℕ) (l : Timer)
        → EndsIn
            (Sound strict (remove id down))
            (end_waiting id now (wait_if_open now (handler no_gesture (t ∷ ts) js v r l unset es)))
    unfolding has_detected_gesture is_single
    ends_dead true r l = ends_none r
    ends_dead false r l = rw (count_taps-none (t ∷ ts) js now es) (ends_none now)

  pub end_open-Sound :
      (now : ℕ) (h : Handler)
      → Stage strict h
      → Tally down h.ignored h.tracked h.waiting_release
      → has id h.ignored ≡ false
      → EndsIn
          (Sound strict (remove id down))
          (end_waiting id now (wait_if_open now (give_up_waiting h)))
  unfolding has_detected_gesture is_single
  end_open-Sound now h (idle r l k es ql qk o) b e = absurd (not_untracked [] false b e)
  end_open-Sound now h (draining js w r l k es ql qk o f) b e = absurd (not_untracked js w b e)
  end_open-Sound now h (one t js r l unset es qk o a) b e =
      ends_tap now t [] js es false b e o onetap now tt
  end_open-Sound now h (one t js r l waiting es qk o a) b e = absurd qk
  end_open-Sound now h (one t js r l expired es qk o a) b e =
      ends_dead now t [] js es false b e o false r l
  end_open-Sound now h (two t u js r l unset es ql qk o a) b e =
      ends_tap now t (u ∷ []) js es false b e o twotap now tt
  end_open-Sound now h (two t u js r l waiting es ql qk o a) b e = absurd qk
  end_open-Sound now h (two t u js r l expired es ql qk o a) b e =
      ends_dead now t (u ∷ []) js es false b e o false r l
  end_open-Sound now h (moved t u js r l unset es ql o a) b e =
      ends_none now t (u ∷ []) js es false b e o now
  end_open-Sound now h (moved t u js r l waiting es ql o a) b e =
      ends_dead now t (u ∷ []) js es false b e o false r l
  end_open-Sound now h (moved t u js r l expired es ql o a) b e =
      ends_dead now t (u ∷ []) js es false b e o false r l
  end_open-Sound now h (three t u v js r l unset es ql qk o a) b e =
      open_wait (Sound strict (remove id down)) id now h (detected_tap threetap h tt ∙ ap invert a)
        refl (ends_tap now t (u ∷ v ∷ []) js es false b e o threetap now tt)
  end_open-Sound now h (three t u v js r l waiting es ql qk o a) b e = absurd qk
  end_open-Sound now h (three t u v js r l expired es ql qk o a) b e =
      open_late (Sound strict (remove id down)) id now h (detected_tap threetap h tt ∙ ap invert a)
        refl (ends_dead now t (u ∷ v ∷ []) js es false b e o false r l)
  end_open-Sound now h (tap g t ts js r l unset es i ql qk o a) b e =
      open_wait (Sound strict (remove id down)) id now h (detected_tap g h i ∙ ap invert a) refl
        (rw (tap_stays g i) (ends_tap now t ts js es true b e o g r i))
  end_open-Sound now h (tap g t ts js r l waiting es i ql qk o a) b e = absurd qk
  end_open-Sound now h (tap g t ts js r l expired es i ql qk o a) b e =
      open_late (Sound strict (remove id down)) id now h (detected_tap g h i ∙ ap invert a) refl
        (ends_dead now t ts js es true b e o true r l)
  end_open-Sound now h (dead t ts js w r l unset es q o a) b e =
      ends_dead now t ts js es w b e o w r l
  end_open-Sound now h (dead t ts js w r l waiting es q o a) b e =
      ends_dead now t ts js es w b e o w r l
  end_open-Sound now h (dead t ts js w r l expired es q o a) b e =
      ends_dead now t ts js es w b e o w r l
  end_open-Sound now h (held g t ts js true r l k es i ql qk o s a) b e =
      keep_detected (Sound strict (remove id down)) id now h (detected_held g h i) (
        release_held t ts js true r l k es ql qk b e g
          (ltb 250 (now - r) || some_older 1000 now (t ∷ ts)) i (λ x. cc (s x)))
  end_open-Sound now h (held g t ts js false r l k es i ql qk o s a) b e =
      keep_detected (Sound strict (remove id down)) id now h (detected_held g h i)
        (end_held t ts js false r l k es ql qk b e g i o)

module _ (strict : Bool) (down : List ℕ) where
  pub touch_end-Sound :
      (id now : ℕ) (h : Handler)
      → Stage strict h
      → Tally down h.ignored h.tracked h.waiting_release
      → has id down ≡ true
      → EndsIn (Sound strict (remove id down)) (touch_end id now h)
  unfolding touch_end
  touch_end-Sound id now h s b d = go (has id h.ignored) refl
    where
      go :
          (c : Bool)
          → has id h.ignored ≡ c
          → EndsIn (Sound strict (remove id down)) (
              if c
              then returned (end_ignored id h)
              else end_waiting id now (wait_if_open now (give_up_waiting h)))
      go true e = returned-EndsIn (end_ignored-Sound strict down id h s b d e)
      go false e = end_open-Sound strict down id d now h s b e
