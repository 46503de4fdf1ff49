-- ===== src/Keyboard/Replay.antt =====
-- What a server makes of the key events of core/input/keyboard.js: it keeps the keys that are held,
-- and accepts a release only of a held key, with the keysym it was pressed with.
use Prim.Native.String.{String}
use text.Mathlib.Text.{◌==◌ as str_eq}
use text.Mathlib.TextEquality.{eq_iff}
use proxmox_self_service_por.Prelude.{
  ℕ, ◌≡◌, refl, ◌⊎◌, Bool, true, false, Option, none, some, List, [], ◌∷◌, ◌++◌, arith, ◌==◌,
  if◌then◌else◌,
}
use proxmox_self_service_por.Keyboard.Keys.{KeyDownList, find, put, remove, KeyEvent}

abbrev pub same_keysym : Option ℕ → Option ℕ → Bool
same_keysym none none = true
same_keysym (some j) (some k) = j == k
same_keysym _ _ = false

abbrev heard_down : KeyEvent → KeyDownList → Option (Option ℕ) → Option KeyDownList
heard_down e held none = some (put e.code e.keysym held)
heard_down e held (some k) =
    if same_keysym k e.keysym then some (put e.code e.keysym held) else none

abbrev heard_up : KeyEvent → KeyDownList → Option (Option ℕ) → Option KeyDownList
heard_up e held none = none
heard_up e held (some k) = if same_keysym k e.keysym then some (remove e.code held) else none

-- A press is of a key that is not held, or repeats the keysym; a release is of a held key, with its
-- keysym.
abbrev pub hear : KeyEvent → KeyDownList → Option KeyDownList
hear e held =
    if e.down then heard_down e held (find e.code held) else heard_up e held (find e.code held)

abbrev pub and_hear : Option KeyDownList → (KeyDownList → Option KeyDownList) → Option KeyDownList
and_hear none next = none
and_hear (some held) next = next held

-- `none` if an event is refused
unfoldable pub replay : List KeyEvent → KeyDownList → Option KeyDownList
replay [] held = some held
replay (e ∷ events) held = and_hear (hear e held) (λ h. replay events h)

pub replay-append :
    (xs ys : List KeyEvent) (held mid : KeyDownList)
    → replay xs held ≡ some mid
    → replay (xs ++ ys) held ≡ replay ys mid
unfolding replay
replay-append [] ys held mid e = cc
replay-append (x ∷ xs) ys held mid e = next (hear x held) (λ h e'. replay-append xs ys h mid e') e
  where
    next :
        (o : Option KeyDownList)
        → ((h : KeyDownList) → replay xs h ≡ some mid → replay (xs ++ ys) h ≡ replay ys mid)
        → and_hear o (λ h. replay xs h) ≡ some mid
        → and_hear o (λ h. replay (xs ++ ys) h) ≡ replay ys mid
    next none ih e = cc
    next (some h) ih e = ih h e

pub same_keysym_refl : (k : Option ℕ) → same_keysym k k ≡ true
same_keysym_refl none = refl
same_keysym_refl (some k) = ground arith

pub find-put :
    (c d : String) (k : Option ℕ) (l : KeyDownList)
    → find d (put c k l) ≡ (if str_eq c d then some k else find d l)
find-put c d k [] = refl
find-put c d k ((e, j) ∷ l) = ground (arith, eq_iff c d, eq_iff e c, eq_iff e d, find-put c d k l)

pub find-remove :
    (c d : String) (l : KeyDownList) → find d (remove c l) ≡ (if str_eq c d then none else find d l)
find-remove c d [] = ground arith
find-remove c d ((e, j) ∷ l) = ground (arith, eq_iff c d, eq_iff e c, eq_iff e d, find-remove c d l)

abbrev pub Absent : String → KeyDownList → Type 0
Absent code list = find code list ≡ none

-- not held, or held with this keysym
abbrev pub Agrees : String → Option ℕ → KeyDownList → Type 0
Agrees code keysym list = (find code list ≡ none) ⊎ (find code list ≡ some keysym)
