-- ===== src/Keyboard/HandlerLaws.antt =====
-- Each event handler of core/input/keyboard.js sends key events that a server accepts.
use Prim.Native.String.{String}
use mathlib.Core.Path.{subst}
use text.Mathlib.Text.{◌==◌ as str_eq}
use text.Mathlib.TextEquality.{eq_iff}
use proxmox_self_service_por.Prelude.{
  ℕ, ◌-◌, ◌≡◌, refl, sym, inl, inr, true, false, ◌&&◌, ◌||◌, Option, none, some, List, [], ◌∷◌,
  arith, ltb, if◌then◌else◌, Bool-cases,
}
use proxmox_self_service_por.Keyboard.Keys.{
  KeyDownList, find, KeyEvent, Keyboard, ◌>>◌, Locks, no_locks, send_down,
}
use proxmox_self_service_por.Keyboard.Replay.{Absent, Agrees}
use proxmox_self_service_por.Keyboard.Handlers.{
  Platform, DomEvent, is_apple, disarm, interrupt_alt_gr_sequence, xk_control_l, xk_caps_lock,
  truthy, arm, locks_of, pressed, tracked, known_keysym, shuffled, is_jp_bad_key, handle_key_down,
  send_release, release_shifts, after_interrupt, handle_key_up, release_all, release_held,
  all_keys_up, xk_iso_level3_shift,
}
use proxmox_self_service_por.Keyboard.Consistency.{
  IsValid, Consistent, Consistent-then, silent, send_down-Consistent, send_up-Consistent,
  press_release-Consistent,
}

Agrees-known :
    (code : String) (k : Option ℕ) (l : KeyDownList) (o : Option (Option ℕ))
    → find code l ≡ o
    → Agrees code (known_keysym o k) l
Agrees-known code k l none e = inl e
Agrees-known code k l (some j) e = inr e

module _ (p : Platform) where
  disarm-IsValid : (s : Keyboard) → IsValid p s → IsValid p (disarm s)
  disarm-IsValid s v = record {
    unidentified = v.unidentified;
    caps_lock = v.caps_lock;
    control = λ e. cc;
  }

  armed_before :
      (s : Keyboard) (r : List KeyEvent × Keyboard) → Consistent p (disarm s) r → Consistent p s r
  armed_before s r c = record { accepted = c.accepted; valid = c.valid }

  -- the Ctrl press that was held back
  late_control :
      (s : Keyboard) (locks : Locks)
      → IsValid p s
      → s.alt_gr_armed ≡ true
      → Consistent p s (send_down (some xk_control_l) "ControlLeft" locks (disarm s))
  late_control s locks v armed = armed_before s _ (
      send_down-Consistent p (some xk_control_l) "ControlLeft" locks (disarm s) (disarm-IsValid s v)
        (inl (v.control armed)) refl (λ e. refl) (λ e. cc))

  pub interrupt-Consistent :
      (s : Keyboard) → IsValid p s → Consistent p s (interrupt_alt_gr_sequence s)
  unfolding interrupt_alt_gr_sequence
  interrupt-Consistent s v = elim (Bool-cases s.alt_gr_armed) [
    | inl armed ↦
        let sends : interrupt_alt_gr_sequence s
            ≡ send_down (some xk_control_l) "ControlLeft" no_locks (disarm s) =
          rw armed in
        subst (Consistent p s) (sym sends) (late_control s no_locks v armed)
    | inr idle ↦
        let stays : interrupt_alt_gr_sequence s ≡ ([], s) = rw idle in
        subst (Consistent p s) (sym stays) (silent p s v)
  ]

  last_press :
      (e : DomEvent) (keysym : Option ℕ) (s : Keyboard) (o : Option (Option ℕ))
      → find "ControlLeft" s.key_down_list ≡ o
      → IsValid p s
      → Consistent p s (send_down keysym e.code (locks_of p e) s)
      → Consistent p s (elim o [
        | none ↦
            if str_eq e.code "ControlLeft" && p.is_windows
            then arm e.time_stamp s
            else send_down keysym e.code (locks_of p e) s
        | some _ ↦ send_down keysym e.code (locks_of p e) s
      ])
  last_press e keysym s (some k) h v c = c
  last_press e keysym s none h v c =
      elim (Bool-cases (str_eq e.code "ControlLeft" && p.is_windows)) [
        | inl starts ↦ rw starts (record {
          accepted = (silent p s v).accepted;
          valid = record {
            unidentified = v.unidentified;
            caps_lock = v.caps_lock;
            control = λ _. h;
          };
        })
        | inr other ↦ rw other c
      ]

  pressed-Consistent :
      (e : DomEvent) (keysym : Option ℕ) (s : Keyboard)
      → IsValid p s
      → s.alt_gr_armed ≡ false
      → str_eq e.code "Unidentified" ≡ false
      → Agrees e.code keysym s.key_down_list
      → Consistent p s (pressed p e keysym s)
  pressed-Consistent e keysym s v idle named agrees =
      elim (Bool-cases (
        is_apple p
        && e.meta_key
        && (if str_eq e.code "MetaLeft" || str_eq e.code "MetaRight" then false else true))) [
          | inl meta ↦ rw meta (press_release-Consistent p keysym e.code (locks_of p e) s v agrees)
          | inr no_meta ↦ elim (Bool-cases (is_apple p && str_eq e.code "CapsLock")) [
            | inl caps ↦
                rw (no_meta, caps)
                  (press_release-Consistent p (some xk_caps_lock) "CapsLock" (locks_of p e) s v
                    (inl (v.caps_lock (ground arith))))
            | inr no_caps ↦ elim (Bool-cases (p.is_windows && is_jp_bad_key keysym)) [
              | inl bad ↦
                  rw (no_meta, no_caps, bad)
                    (press_release-Consistent p keysym e.code (locks_of p e) s v agrees)
              | inr good ↦
                  rw (no_meta, no_caps, good)
                    (last_press e keysym s (find "ControlLeft" s.key_down_list) refl v (
                      send_down-Consistent p keysym e.code (locks_of p e) s v agrees named
                        (λ a. ground arith) (λ a. cc)))
            ]
          ]
        ]

  tracked-Consistent :
      (e : DomEvent) (keysym : Option ℕ) (s : Keyboard)
      → IsValid p s
      → s.alt_gr_armed ≡ false
      → Consistent p s (tracked p e keysym s)
  unfolding tracked
  tracked-Consistent e keysym s v idle = elim (Bool-cases (str_eq e.code "Unidentified")) [
    | inr named ↦ rw named (
        pressed-Consistent e _ s v idle named
          (Agrees-known e.code (shuffled p keysym) s.key_down_list _ refl))
    | inl unknown ↦ elim (Bool-cases (truthy keysym)) [
      | inl some_key ↦
          rw (unknown, some_key)
            (press_release-Consistent p keysym e.code (locks_of p e) s v
              (inl (unknown_absent unknown)))
      | inr no_key ↦ rw (unknown, no_key) (silent p s v)
    ]
  ]
    where
      unknown_absent : str_eq e.code "Unidentified" ≡ true → Absent e.code s.key_down_list
      unknown_absent h =
          let same : e.code ≡ "Unidentified" = ground (arith, eq_iff e.code "Unidentified") in
          subst (λ c. Absent c s.key_down_list) (sym same) v.unidentified

  -- `_handleKeyDown` on every path.
  pub handle_key_down-Consistent :
      (e : DomEvent) (s : Keyboard) → IsValid p s → Consistent p s (handle_key_down p e s)
  unfolding handle_key_down
  handle_key_down-Consistent e s v = elim (Bool-cases s.alt_gr_armed) [
    | inr idle ↦
        let goes_on : handle_key_down p e s ≡ tracked p e e.keysym s = rw idle in
        subst (Consistent p s) (sym goes_on) (tracked-Consistent e e.keysym s v idle)
    | inl armed ↦
        elim (Bool-cases (str_eq e.code "AltRight" && ltb (e.time_stamp - s.alt_gr_ctrl_time) 50)) [
          | inl alt_gr ↦
              let merges : handle_key_down p e s
                  ≡ tracked p e (some xk_iso_level3_shift) (disarm s) =
                rw (armed, alt_gr) in
              subst (Consistent p s) (sym merges) (
                armed_before s _ (
                  tracked-Consistent e (some xk_iso_level3_shift) (disarm s) (disarm-IsValid s v)
                    refl))
          | inr other ↦
              let sends : handle_key_down p e s
                  ≡ (send_down (some xk_control_l) "ControlLeft" (locks_of p e)
                        >> tracked p e e.keysym)
                      (disarm s) =
                rw (armed, other) in
              subst (Consistent p s) (sym sends) (
                Consistent-then p s
                  (send_down (some xk_control_l) "ControlLeft" (locks_of p e) (disarm s))
                  (tracked p e e.keysym) (late_control s (locks_of p e) v armed)
                  (λ v'. unfold send_down in tracked-Consistent e e.keysym _ v' refl))
        ]
  ]

  pub send_release-Consistent :
      (code : String) (s : Keyboard) → IsValid p s → Consistent p s (send_release p code s)
  unfolding send_release
  send_release-Consistent code s v =
      send_up-Consistent p _ code no_locks s v (Agrees-known code none s.key_down_list _ refl)

  release_shifts-Consistent :
      (code : String) (s : Keyboard) → IsValid p s → Consistent p s (release_shifts p code s)
  unfolding release_shifts
  release_shifts-Consistent code s v =
      elim (Bool-cases (p.is_windows && (str_eq code "ShiftLeft" || str_eq code "ShiftRight"))) [
        | inl shift ↦ rw shift (
            Consistent-then p s (send_release p "ShiftRight" s) (send_release p "ShiftLeft")
              (send_release-Consistent "ShiftRight" s v)
              (λ v'. send_release-Consistent "ShiftLeft" _ v'))
        | inr other ↦ rw other (silent p s v)
      ]

  after_interrupt-Consistent :
      (code : String) (s : Keyboard) → IsValid p s → Consistent p s (after_interrupt p code s)
  unfolding after_interrupt
  after_interrupt-Consistent code s v = elim (Bool-cases (is_apple p && str_eq code "CapsLock")) [
    | inl caps ↦ rw caps (
        press_release-Consistent p (some xk_caps_lock) "CapsLock" no_locks s v
          (inl (v.caps_lock (ground arith))))
    | inr other ↦ rw other (
        Consistent-then p s (send_release p code s) (release_shifts p code)
          (send_release-Consistent code s v) (λ v'. release_shifts-Consistent code _ v'))
  ]

  -- `_handleKeyUp` on every path.
  pub handle_key_up-Consistent :
      (e : DomEvent) (s : Keyboard) → IsValid p s → Consistent p s (handle_key_up p e s)
  unfolding handle_key_up
  handle_key_up-Consistent e s v =
      Consistent-then p s (interrupt_alt_gr_sequence s) (after_interrupt p e.code)
        (interrupt-Consistent s v) (λ v'. after_interrupt-Consistent e.code _ v')

  release_all-Consistent :
      (codes : List String) (s : Keyboard) → IsValid p s → Consistent p s (release_all p codes s)
  unfolding release_all
  release_all-Consistent [] s v = silent p s v
  release_all-Consistent (code ∷ codes) s v =
      Consistent-then p s (send_release p code s) (λ s'. release_all p codes s')
        (send_release-Consistent code s v) (λ v'. release_all-Consistent codes _ v')

  pub all_keys_up-Consistent : (s : Keyboard) → IsValid p s → Consistent p s (all_keys_up p s)
  unfolding all_keys_up
  all_keys_up-Consistent s v =
      Consistent-then p s (interrupt_alt_gr_sequence s) (release_held p) (interrupt-Consistent s v)
        (λ v'. release_all-Consistent _ _ v')
