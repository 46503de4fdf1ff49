-- ===== src/Gesture/Cleans.antt =====
-- Steps of `_touchEnd` of core/input/gesturehandler.js: cleaning up, and touches that are ignored.
use proxmox_self_service_por.Prelude.{
  ℕ, ◌≡◌, refl, Bool, true, false, ◌&&◌, none, List, [], ◌∷◌, ◌++◌,
}
use proxmox_self_service_por.Gesture.Flags.{
  Gesture, onetap, twotap, threetap, drag, longpress, twodrag, pinch, Flags, flag, join, drop_flags,
  no_gesture,
}
use proxmox_self_service_por.Gesture.Touches.{Touch, has, remove, is_nil, active_ids}
use proxmox_self_service_por.Gesture.State.{Timer, unset, Handler, GestureEvent, is_set}
use proxmox_self_service_por.Gesture.Handler.{
  has_detected_gesture, clean_up, reset_if, end_waiting, wait_if_open, give_up_waiting, end_ignored,
  wait_release, count_taps,
}
use proxmox_self_service_por.Gesture.Stage.{
  Stage, idle, draining, one, two, moved, three, tap, dead, held, handler, Tally, Sound, EndsIn,
  IsTap, IsQuiet, Told,
}
use proxmox_self_service_por.Gesture.Tallies.{unignore-Tally}

and_false : (b : Bool) → (b && false) ≡ false
and_false true = refl
and_false false = refl

pub tap_stays :
    (g : Gesture)
    → IsTap g
    → drop_flags
        (drop_flags (flag g) (join (flag drag) (join (flag twodrag) (flag pinch))))
        (flag longpress)
      ≡ flag g
tap_stays onetap i = refl
tap_stays twotap i = refl
tap_stays threetap i = refl
tap_stays drag i = absurd i
tap_stays longpress i = absurd i
tap_stays twodrag i = absurd i
tap_stays pinch i = absurd i

pub count_taps-none :
    (ts : List Touch) (js : List ℕ) (now : ℕ) (es : List GestureEvent)
    → (let h : Handler = handler no_gesture ts js true now unset unset es in count_taps ts h ≡ h)
count_taps-none [] js now es = refl
count_taps-none (t ∷ []) js now es = refl
count_taps-none (t ∷ u ∷ []) js now es = refl
count_taps-none (t ∷ u ∷ v ∷ ts) js now es = refl

-- No gesture is detected, and no timeout of two touches is set.
pub open_wait :
    (P : Handler → Type 0) (id now : ℕ) (h : Handler)
    → has_detected_gesture h ≡ false
    → is_set h.two_touch_timeout ≡ false
    → EndsIn P (end_waiting id now (wait_release now h))
    → EndsIn P (end_waiting id now (wait_if_open now (give_up_waiting h)))
open_wait P id now h d u p = let same : give_up_waiting h ≡ h = rw (d, u) refl in rw (same, d) p

pub keep_detected :
    (P : Handler → Type 0) (id now : ℕ) (h : Handler)
    → has_detected_gesture h ≡ true
    → EndsIn P (end_waiting id now h)
    → EndsIn P (end_waiting id now (wait_if_open now (give_up_waiting h)))
keep_detected P id now h d p = let same : give_up_waiting h ≡ h = rw d refl in rw (same, d) p

pub open_late :
    (P : Handler → Type 0) (id now : ℕ) (h : Handler)
    → has_detected_gesture h ≡ false
    → is_set h.two_touch_timeout ≡ true
    → EndsIn P (
        end_waiting id now
          (wait_if_open now (record h { state = no_gesture; two_touch_timeout = unset })))
    → EndsIn P (end_waiting id now (wait_if_open now (give_up_waiting h)))
open_late P id now h d u p =
    let same : give_up_waiting h ≡ record h { state = no_gesture; two_touch_timeout = unset } =
      rw (d, u) refl in
    rw same p

module _ (strict : Bool) (down : List ℕ) where
  -- After cleaning up the handler is idle, or it drains.
  pub cleaned :
      (id : ℕ) (state : Flags) (ts : List Touch) (js : List ℕ) (w : Bool) (r : ℕ) (l k : Timer)
      (es : List GestureEvent)
      → IsQuiet l
      → IsQuiet k
      → Told strict none es
      → ((w' : Bool) → Tally down (remove id (js ++ active_ids ts)) [] w')
      → Sound strict down (clean_up id (handler state ts js w r l k es))
  unfolding clean_up
  cleaned id state ts js w r l k es ql qk o b = go (remove id (js ++ active_ids ts)) b
    where
      go :
          (is : List ℕ)
          → ((w' : Bool) → Tally down is [] w')
          → Sound strict down (reset_if (is_nil is) (handler no_gesture [] is w r l k es))
      go [] c = record { stage = idle r l k es ql qk o; tally = c false }
      go (i ∷ is) c = record { stage = draining (i ∷ is) w r l k es ql qk o refl; tally = c w }

  -- a touch that is ignored
  pub end_ignored-Sound :
      (id : ℕ) (h : Handler)
      → Stage strict h
      → Tally down h.ignored h.tracked h.waiting_release
      → has id down ≡ true
      → has id h.ignored ≡ true
      → Sound strict (remove id down) (end_ignored id h)
  end_ignored-Sound id h (idle r l k es ql qk o) b d e = absurd (cc e)
  end_ignored-Sound id h (draining js w r l k es ql qk o f) b d e = go (remove id js) (λ w'.
      record { split = (unignore-Tally b id d e).split; once = b.once; present = λ e' i. refl })
    where
      go :
          (is : List ℕ)
          → ((w' : Bool) → Tally (remove id down) is [] w')
          → Sound strict
              (remove id down)
              (reset_if (is_nil is && true) (handler no_gesture [] is w r l k es))
      go [] c = record { stage = idle r l k es ql qk o; tally = c false }
      go (i ∷ is) c = record { stage = draining (i ∷ is) w r l k es ql qk o refl; tally = c w }
  end_ignored-Sound id h (one t js r l k es qk o a) b d e =
      rw (and_false (is_nil (remove id js)))
        (record { stage = one t (remove id js) r l k es qk o a; tally = unignore-Tally b id d e })
  end_ignored-Sound id h (two t u js r l k es ql qk o a) b d e =
      rw (and_false (is_nil (remove id js))) (record {
        stage = two t u (remove id js) r l k es ql qk o a;
        tally = unignore-Tally b id d e;
      })
  end_ignored-Sound id h (moved t u js r l k es ql o a) b d e =
      rw (and_false (is_nil (remove id js))) (record {
        stage = moved t u (remove id js) r l k es ql o a;
        tally = unignore-Tally b id d e;
      })
  end_ignored-Sound id h (three t u v js r l k es ql qk o a) b d e =
      rw (and_false (is_nil (remove id js))) (record {
        stage = three t u v (remove id js) r l k es ql qk o a;
        tally = unignore-Tally b id d e;
      })
  end_ignored-Sound id h (tap g t ts js r l k es i ql qk o a) b d e =
      rw (and_false (is_nil (remove id js))) (record {
        stage = tap g t ts (remove id js) r l k es i ql qk o a;
        tally = unignore-Tally b id d e;
      })
  end_ignored-Sound id h (dead t ts js w r l k es q o a) b d e =
      rw (and_false (is_nil (remove id js))) (record {
        stage = dead t ts (remove id js) w r l k es q o a;
        tally = unignore-Tally b id d e;
      })
  end_ignored-Sound id h (held g t ts js w r l k es i ql qk o s a) b d e =
      rw (and_false (is_nil (remove id js))) (record {
        stage = held g t ts (remove id js) w r l k es i ql qk o s a;
        tally = unignore-Tally b id d e;
      })
