-- ===== src/Keyboard/Handlers.antt =====
-- The event handlers of core/input/keyboard.js. The event comes with what `_getKeyCode` and
-- `KeyboardUtil.getKeysym` make of it; the platform is what core/util/browser.js says.
use Prim.Native.String.{String}
use text.Mathlib.Text.{◌==◌ as str_eq}
use proxmox_self_service_por.Prelude.{
  ℕ, ◌-◌, Bool, true, false, ◌&&◌, ◌||◌, Option, none, some, List, [], ◌∷◌, ltb, ◌==◌,
  if◌then◌else◌,
}
use proxmox_self_service_por.Keyboard.Keys.{
  KeyDownList, find, Keyboard, Step, ◌>>◌, Locks, no_locks, send_key_event,
}

pub record Platform : Type 0 where
  pub is_mac : Bool
  pub is_ios : Bool
  pub is_windows : Bool

-- `browser.isMac() || browser.isIOS()`
abbrev pub is_apple : Platform → Bool
is_apple p = p.is_mac || p.is_ios

-- A `keydown` or `keyup` event.
pub record DomEvent : Type 0 where
  pub code : String
  pub keysym : Option ℕ
  pub numlock : Bool
  pub capslock : Bool
  pub meta_key : Bool
  pub time_stamp : ℕ

abbrev pub xk_control_l : ℕ
xk_control_l = 65507

abbrev pub xk_caps_lock : ℕ
xk_caps_lock = 65509

abbrev pub xk_iso_level3_shift : ℕ
xk_iso_level3_shift = 65027

-- `XK_Alt_L`, `XK_Alt_R`, `XK_Super_L`, `XK_Super_R`, `XK_Mode_switch`
abbrev pub xk_alt_l : ℕ
xk_alt_l = 65513

abbrev pub xk_alt_r : ℕ
xk_alt_r = 65514

abbrev pub xk_super_l : ℕ
xk_super_l = 65515

abbrev pub xk_super_r : ℕ
xk_super_r = 65516

abbrev pub xk_mode_switch : ℕ
xk_mode_switch = 65406

-- `jpBadKeys.includes(keysym)`
abbrev pub is_jp_bad_key : Option ℕ → Bool
is_jp_bad_key none = false
is_jp_bad_key (some k) = k == 65322 || k == 65328 || k == 65318 || k == 65317 || k == 65316

-- the switch for macOS
abbrev pub shuffle_alt : ℕ → ℕ
shuffle_alt k =
    if k == xk_super_l
    then xk_alt_l
    else if k == xk_super_r
    then xk_super_l
    else if k == xk_alt_l
    then xk_mode_switch
    else if k == xk_alt_r
    then xk_iso_level3_shift
    else k

abbrev pub shuffled : Platform → Option ℕ → Option ℕ
shuffled p none = none
shuffled p (some k) = some (if is_apple p then shuffle_alt k else k)

-- `code in list ? list[code] : keysym`
abbrev pub known_keysym : Option (Option ℕ) → Option ℕ → Option ℕ
known_keysym none keysym = keysym
known_keysym (some k) keysym = k

-- a press and its release right after it
abbrev pub press_release : Option ℕ → String → Locks → Step
press_release keysym code locks =
    send_key_event keysym code true locks >> send_key_event keysym code false locks

abbrev pub disarm : Keyboard → Keyboard
disarm s = record s { alt_gr_armed = false }

unfoldable pub interrupt_alt_gr_sequence : Step
interrupt_alt_gr_sequence s =
    if s.alt_gr_armed
    then send_key_event (some xk_control_l) "ControlLeft" true no_locks (disarm s)
    else ([], s)

-- `if (keysym)`: null and 0 are false
abbrev pub truthy : Option ℕ → Bool
truthy none = false
truthy (some k) = if k == 0 then false else true

abbrev pub arm : ℕ → Step
arm time s = ([], record s { alt_gr_armed = true; alt_gr_ctrl_time = time })

-- the keys of the list
abbrev pub codes_of : KeyDownList → List String
codes_of [] = []
codes_of ((c, k) ∷ list) = c ∷ codes_of list

module _ (p : Platform) where
  abbrev pub locks_of : DomEvent → Locks
  locks_of e = record {
    numlock = if is_apple p then none else some e.numlock;
    capslock = some e.capslock;
  }

  -- `_handleKeyDown` from the question whether the key is pressed already
  abbrev pub pressed : DomEvent → Option ℕ → Step
  pressed e keysym s =
      if is_apple p
        && e.meta_key
        && (if str_eq e.code "MetaLeft" || str_eq e.code "MetaRight" then false else true)
      then press_release keysym e.code (locks_of e) s
      else if is_apple p && str_eq e.code "CapsLock"
      then press_release (some xk_caps_lock) "CapsLock" (locks_of e) s
      else if p.is_windows && is_jp_bad_key keysym
      then press_release keysym e.code (locks_of e) s
      else elim (find "ControlLeft" s.key_down_list) [
        | none ↦
            if str_eq e.code "ControlLeft" && p.is_windows
            then arm e.time_stamp s
            else send_key_event keysym e.code true (locks_of e) s
        | some _ ↦ send_key_event keysym e.code true (locks_of e) s
      ]

  -- `_handleKeyDown` after the end of an AltGr sequence
  unfoldable pub tracked : DomEvent → Option ℕ → Step
  tracked e keysym s =
      if str_eq e.code "Unidentified"
      then (if truthy keysym then press_release keysym e.code (locks_of e) s else ([], s))
      else pressed e (known_keysym (find e.code s.key_down_list) (shuffled p keysym)) s

  unfoldable pub handle_key_down : DomEvent → Step
  handle_key_down e s =
      if s.alt_gr_armed
      then if str_eq e.code "AltRight" && ltb (e.time_stamp - s.alt_gr_ctrl_time) 50
        then tracked e (some xk_iso_level3_shift) (disarm s)
        else (send_key_event (some xk_control_l) "ControlLeft" true (locks_of e)
              >> tracked e e.keysym)
            (disarm s)
      else tracked e e.keysym s

  -- the release of the key `code` with the keysym it was pressed with
  unfoldable pub send_release : String → Step
  send_release code s =
      send_key_event (known_keysym (find code s.key_down_list) none) code false no_locks s

  unfoldable pub release_shifts : String → Step
  release_shifts code s =
      if p.is_windows && (str_eq code "ShiftLeft" || str_eq code "ShiftRight")
      then (send_release "ShiftRight" >> send_release "ShiftLeft") s
      else ([], s)

  unfoldable pub after_interrupt : String → Step
  after_interrupt code s =
      if is_apple p && str_eq code "CapsLock"
      then press_release (some xk_caps_lock) "CapsLock" no_locks s
      else (send_release code >> release_shifts code) s

  unfoldable pub handle_key_up : DomEvent → Step
  handle_key_up e = interrupt_alt_gr_sequence >> after_interrupt e.code

  -- the loop over the keys that were down when it began
  unfoldable pub release_all : List String → Step
  release_all [] s = ([], s)
  release_all (code ∷ codes) s = (send_release code >> (λ s'. release_all codes s')) s

  abbrev pub release_held : Step
  release_held s = release_all (codes_of s.key_down_list) s

  unfoldable pub all_keys_up : Step
  all_keys_up = interrupt_alt_gr_sequence >> release_held
