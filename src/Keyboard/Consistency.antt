-- ===== src/Keyboard/Consistency.antt =====
-- The key events of core/input/keyboard.js make sense to a server, step by step.
use Prim.Native.String.{String}
use mathlib.Core.Path.{subst}
use text.Mathlib.Text.{◌==◌ as str_eq}
use text.Mathlib.TextPositions.{eq_refl}
use proxmox_self_service_por.Prelude.{
  ℕ, ◌≡◌, refl, sym, ◌∙◌, inl, inr, true, false, Option, some, List, [], ◌∷◌, arith,
}
use proxmox_self_service_por.Keyboard.Keys.{
  KeyDownList, find, put, remove, KeyEvent, Keyboard, Step, and_then, Locks, event, send_down,
  send_up,
}
use proxmox_self_service_por.Keyboard.Replay.{
  hear, replay, replay-append, same_keysym_refl, find-put, find-remove, Absent, Agrees,
}
use proxmox_self_service_por.Keyboard.Handlers.{Platform, is_apple, press_release}

-- Some keys are never held: one without a code, CapsLock on macOS, and the left Ctrl while an AltGr
-- sequence may have begun.
pub record IsValid (p : Platform) (s : Keyboard) : Type 0 where
  pub unidentified : Absent "Unidentified" s.key_down_list
  pub caps_lock : is_apple p ≡ true → Absent "CapsLock" s.key_down_list
  pub control : s.alt_gr_armed ≡ true → Absent "ControlLeft" s.key_down_list

-- The server accepts the events, and holds then what the client takes for held.
pub record Consistent (p : Platform) (s : Keyboard) (r : List KeyEvent × Keyboard) : Type 0 where
  pub accepted : replay r.0 s.key_down_list ≡ some r.1.key_down_list
  pub valid : IsValid p r.1

module _ (p : Platform) where
  pub Consistent-then :
      (s : Keyboard) (r : List KeyEvent × Keyboard) (k : Step)
      → Consistent p s r
      → (IsValid p r.1 → Consistent p r.1 (k r.1))
      → Consistent p s (and_then r k)
  Consistent-then s (events, s') k c next =
      let n = next c.valid in
      record {
        accepted =
            replay-append events (k s').0 s.key_down_list s'.key_down_list c.accepted ∙ n.accepted;
        valid = n.valid;
      }

  pub silent : (s : Keyboard) → IsValid p s → Consistent p s ([], s)
  unfolding replay
  silent s v = record { accepted = refl; valid = v }

  accepts_down :
      (keysym : Option ℕ) (code : String) (locks : Locks) (l : KeyDownList)
      → Agrees code keysym l
      → hear (event keysym code true locks) l ≡ some (put code keysym l)
  accepts_down keysym code locks l (inl a) = rw a
  accepts_down keysym code locks l (inr h) = rw (h, same_keysym_refl keysym)

  accepts_up :
      (keysym : Option ℕ) (code : String) (locks : Locks) (l : KeyDownList)
      → find code l ≡ some keysym
      → hear (event keysym code false locks) l ≡ some (remove code l)
  accepts_up keysym code locks l h = rw (h, same_keysym_refl keysym)

  Absent-put :
      (code d : String) (k : Option ℕ) (l : KeyDownList)
      → str_eq code d ≡ false
      → Absent d l
      → Absent d (put code k l)
  Absent-put code d k l ne a = ground (arith, find-put code d k l)

  Absent-remove : (code d : String) (l : KeyDownList) → Absent d l → Absent d (remove code l)
  Absent-remove code d l a = ground (arith, find-remove code d l)

  Absent-both :
      (code d : String) (k : Option ℕ) (l : KeyDownList)
      → Absent d l
      → Absent d (remove code (put code k l))
  Absent-both code d k l a = ground (arith, find-remove code d (put code k l), find-put code d k l)

  -- A press of a key that may be held.
  pub send_down-Consistent :
      (keysym : Option ℕ) (code : String) (locks : Locks) (s : Keyboard)
      → IsValid p s
      → Agrees code keysym s.key_down_list
      → str_eq code "Unidentified" ≡ false
      → (is_apple p ≡ true → str_eq code "CapsLock" ≡ false)
      → (s.alt_gr_armed ≡ true → str_eq code "ControlLeft" ≡ false)
      → Consistent p s (send_down keysym code locks s)
  unfolding send_down replay
  send_down-Consistent keysym code locks s v agrees n₁ n₂ n₃ = record {
    accepted = rw (accepts_down keysym code locks s.key_down_list agrees);
    valid = record {
      unidentified = Absent-put code "Unidentified" keysym s.key_down_list n₁ v.unidentified;
      caps_lock = λ e. Absent-put code "CapsLock" keysym s.key_down_list (n₂ e) (v.caps_lock e);
      control = λ e. Absent-put code "ControlLeft" keysym s.key_down_list (n₃ e) (v.control e);
    };
  }

  removed-IsValid :
      (code : String) (s : Keyboard)
      → IsValid p s
      → IsValid p (record s { key_down_list = remove code s.key_down_list })
  removed-IsValid code s v = record {
    unidentified = Absent-remove code "Unidentified" s.key_down_list v.unidentified;
    caps_lock = λ e. Absent-remove code "CapsLock" s.key_down_list (v.caps_lock e);
    control = λ e. Absent-remove code "ControlLeft" s.key_down_list (v.control e);
  }

  -- A release names the keysym of the press, or is not sent.
  pub send_up-Consistent :
      (keysym : Option ℕ) (code : String) (locks : Locks) (s : Keyboard)
      → IsValid p s
      → Agrees code keysym s.key_down_list
      → Consistent p s (send_up keysym code locks s)
  unfolding send_up replay
  send_up-Consistent keysym code locks s v (inl a) = rw a (silent s v)
  send_up-Consistent keysym code locks s v (inr h) = rw h (record {
    accepted = rw (accepts_up keysym code locks s.key_down_list h);
    valid = removed-IsValid code s v;
  })

  press_release_lem :
      (keysym : Option ℕ) (code : String) (locks : Locks) (s : Keyboard)
      → press_release keysym code locks s ≡ (
        event keysym code true locks ∷ event keysym code false locks ∷ [],
        record s { key_down_list = remove code (put code keysym s.key_down_list) },
      )
  unfolding send_down send_up
  press_release_lem keysym code locks s =
      let held : find code (put code keysym s.key_down_list) ≡ some keysym =
        ground (arith, find-put code code keysym s.key_down_list, eq_refl code) in
      rw held

  -- A press and its release leave no trace, even of a key that is never held.
  pub press_release-Consistent :
      (keysym : Option ℕ) (code : String) (locks : Locks) (s : Keyboard)
      → IsValid p s
      → Agrees code keysym s.key_down_list
      → Consistent p s (press_release keysym code locks s)
  unfolding replay
  press_release-Consistent keysym code locks s v agrees =
      let held : find code (put code keysym s.key_down_list) ≡ some keysym =
        ground (arith, find-put code code keysym s.key_down_list, eq_refl code) in
      subst (Consistent p s) (sym (press_release_lem keysym code locks s)) (record {
        accepted =
            rw (accepts_down keysym code locks s.key_down_list agrees)
              (rw (accepts_up keysym code locks (put code keysym s.key_down_list) held));
        valid = record {
          unidentified = Absent-both code "Unidentified" keysym s.key_down_list v.unidentified;
          caps_lock = λ e. Absent-both code "CapsLock" keysym s.key_down_list (v.caps_lock e);
          control = λ e. Absent-both code "ControlLeft" keysym s.key_down_list (v.control e);
        };
      })
