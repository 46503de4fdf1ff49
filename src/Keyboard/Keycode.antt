-- ===== src/Keyboard/Keycode.antt =====
-- `getKeycode` of core/input/util.js.
use Prim.Native.String.{String}
use mathlib.Core.Path.{subst}
use text.Mathlib.Text.{◌==◌ as str_eq}
use text.Mathlib.TextEquality.{eq_iff}
use proxmox_self_service_por.Prelude.{
  ℕ, ◌≡◌, ◌≢◌, sym, Bool, true, ◌&&◌, Option, none, some, List, [], ◌∷◌, arith, ◌==◌, if◌then◌else◌,
}
use proxmox_self_service_por.Keyboard.Tables.{vkeys}

-- The fields that are read. An empty `code` stands for an absent one.
pub record DomKey : Type 0 where
  pub code : String
  pub key_code : ℕ
  pub location : ℕ

-- what a table holds at a key
abbrev pub at_number : ℕ → List (ℕ × String) → Option String
at_number n [] = none
at_number n ((m, s) ∷ table) = if m == n then some s else at_number n table

-- a switch: the text that stands beside the first equal one, else the text itself
abbrev pub switch : List (String × String) → String → String
switch [] c = c
switch ((d, s) ∷ cases) c = if str_eq c d then s else switch cases c

abbrev pub right_codes : List (String × String)
right_codes =
    ("ShiftLeft", "ShiftRight") ∷ ("ControlLeft", "ControlRight") ∷ ("AltLeft", "AltRight") ∷ []

abbrev pub numpad_codes : List (String × String)
numpad_codes =
    ("Delete", "NumpadDecimal")
    ∷ ("Insert", "Numpad0")
    ∷ ("End", "Numpad1")
    ∷ ("ArrowDown", "Numpad2")
    ∷ ("PageDown", "Numpad3")
    ∷ ("ArrowLeft", "Numpad4")
    ∷ ("ArrowRight", "Numpad6")
    ∷ ("Home", "Numpad7")
    ∷ ("ArrowUp", "Numpad8")
    ∷ ("PageUp", "Numpad9")
    ∷ ("Enter", "NumpadEnter")
    ∷ []

-- by `location`: the right one of two keys, or the numeric keypad
abbrev pub relocate : ℕ → String → String
relocate location c =
    if location == 2
    then switch right_codes c
    else if location == 3
    then switch numpad_codes c
    else c

abbrev pub mac_code : Bool → String → String
mac_code is_mac c = if is_mac && str_eq c "ContextMenu" then "MetaRight" else c

abbrev pub from_vkey : Bool → ℕ → Option String → String
from_vkey is_mac location none = "Unidentified"
from_vkey is_mac location (some c) = relocate location (mac_code is_mac c)

unfoldable pub get_keycode : Bool → DomKey → String
get_keycode is_mac evt =
    if str_eq evt.code ""
    then from_vkey is_mac evt.location (at_number evt.key_code vkeys)
    else switch (("OSLeft", "MetaLeft") ∷ ("OSRight", "MetaRight") ∷ []) evt.code

-- the code of no key on the left that has one on the right
abbrev pub NotLeft : String → Type 0
NotLeft c = (c ≢ "ShiftLeft") × (c ≢ "ControlLeft") × (c ≢ "AltLeft")

right_codes-NotLeft : (c : String) → NotLeft (switch right_codes c)
right_codes-NotLeft c = ground (
  arith,
  eq_iff c "ShiftLeft",
  eq_iff c "ControlLeft",
  eq_iff c "AltLeft",
  eq_iff "ShiftRight" "ShiftLeft",
  eq_iff "ControlRight" "ShiftLeft",
  eq_iff "AltRight" "ShiftLeft",
  eq_iff "ShiftRight" "ControlLeft",
  eq_iff "ControlRight" "ControlLeft",
  eq_iff "AltRight" "ControlLeft",
  eq_iff "ShiftRight" "AltLeft",
  eq_iff "ControlRight" "AltLeft",
  eq_iff "AltRight" "AltLeft",
)

from_vkey-NotLeft : (is_mac : Bool) (o : Option String) → NotLeft (from_vkey is_mac 2 o)
from_vkey-NotLeft is_mac none = ground (
  arith,
  eq_iff "Unidentified" "ShiftLeft",
  eq_iff "Unidentified" "ControlLeft",
  eq_iff "Unidentified" "AltLeft",
)
from_vkey-NotLeft is_mac (some c) = right_codes-NotLeft (mac_code is_mac c)

-- A key event without `code` that reports the right side is never taken for the left Shift, Ctrl or
-- Alt, whatever its virtual-key code is.
pub get_keycode-NotLeft :
    (is_mac : Bool) (evt : DomKey)
    → evt.code ≡ ""
    → evt.location ≡ 2
    → NotLeft (get_keycode is_mac evt)
unfolding get_keycode
get_keycode-NotLeft is_mac evt no_code right =
    let empty : str_eq evt.code "" ≡ true = ground (arith, eq_iff evt.code "") in
    let keycode : get_keycode is_mac evt ≡ from_vkey is_mac 2 (at_number evt.key_code vkeys) =
      rw (empty, right) in
    subst NotLeft (sym keycode) (from_vkey-NotLeft is_mac (at_number evt.key_code vkeys))
