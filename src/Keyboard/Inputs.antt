-- ===== src/Keyboard/Inputs.antt =====
-- Any sequence of events at core/input/keyboard.js, and the server's view of what is sent.
use Prim.Native.String.{String}
use text.Mathlib.Text.{◌==◌ as str_eq}
use text.Mathlib.TextEquality.{eq_iff}
use text.Mathlib.TextPositions.{eq_refl}
use proxmox_self_service_por.Prelude.{
  ℕ, ◌≡◌, refl, ap, ◌∙◌, Bool, true, false, Option, none, some, List, [], ◌∷◌, arith, if◌then◌else◌,
}
use proxmox_self_service_por.Keyboard.Keys.{
  KeyDownList, find, Keyboard, Step, ◌>>◌, new_keyboard, no_locks, send_up, release,
}
use proxmox_self_service_por.Keyboard.Replay.{replay, find-remove}
use proxmox_self_service_por.Keyboard.Handlers.{
  Platform, DomEvent, handle_key_down, handle_key_up, interrupt_alt_gr_sequence, all_keys_up,
  send_release, release_all, release_held, codes_of, known_keysym,
}
use proxmox_self_service_por.Keyboard.Consistency.{IsValid, Consistent, Consistent-then, silent}
use proxmox_self_service_por.Keyboard.HandlerLaws.{
  handle_key_down-Consistent, handle_key_up-Consistent, interrupt-Consistent,
  all_keys_up-Consistent,
}

-- what calls the handlers: the two key events, the loss of focus, and the timer of an AltGr sequence
pub data Input : Type 0 where
  key_down : DomEvent → Input
  key_up : DomEvent → Input
  blur : Input
  timer : Input

module _ (p : Platform) where
  abbrev pub handle : Input → Step
  handle (key_down e) = handle_key_down p e
  handle (key_up e) = handle_key_up p e
  handle blur = all_keys_up p
  handle timer = interrupt_alt_gr_sequence

  unfoldable pub handle_inputs : List Input → Step
  handle_inputs [] s = ([], s)
  handle_inputs (i ∷ inputs) s = (handle i >> (λ s'. handle_inputs inputs s')) s

  handle-Consistent : (i : Input) (s : Keyboard) → IsValid p s → Consistent p s (handle i s)
  handle-Consistent (key_down e) s v = handle_key_down-Consistent p e s v
  handle-Consistent (key_up e) s v = handle_key_up-Consistent p e s v
  handle-Consistent blur s v = all_keys_up-Consistent p s v
  handle-Consistent timer s v = interrupt-Consistent p s v

  inputs-Consistent :
      (inputs : List Input) (s : Keyboard) → IsValid p s → Consistent p s (handle_inputs inputs s)
  unfolding handle_inputs
  inputs-Consistent [] s v = silent p s v
  inputs-Consistent (i ∷ inputs) s v =
      Consistent-then p s (handle i s) (λ s'. handle_inputs inputs s') (handle-Consistent i s v)
        (λ v'. inputs-Consistent inputs _ v')

  new_keyboard-IsValid : IsValid p new_keyboard
  unfolding new_keyboard
  new_keyboard-IsValid = record { unidentified = refl; caps_lock = λ _. refl; control = λ _. refl }

  -- Whatever events a keyboard gets, in any order and on any platform, the server accepts all that it
  -- sends: a key is pressed twice only with the same keysym, a release is of a pressed key with the
  -- keysym of its press. The server then holds exactly the keys of `_keyDownList`.
  pub handle_inputs-accepted :
      (inputs : List Input)
      → replay (handle_inputs inputs new_keyboard).0 []
        ≡ some (handle_inputs inputs new_keyboard).1.key_down_list
  unfolding new_keyboard
  handle_inputs-accepted inputs =
      (inputs-Consistent inputs new_keyboard new_keyboard-IsValid).accepted

  -- membership in the codes to release
  abbrev listed : String → List String → Bool
  listed d [] = false
  listed d (c ∷ codes) = if str_eq c d then true else listed d codes

  find-send_release :
      (d code : String) (s : Keyboard)
      → find d (send_release p code s).1.key_down_list
        ≡ (if str_eq code d then none else find d s.key_down_list)
  unfolding send_release send_up
  find-send_release d code s = go (find code s.key_down_list) refl
    where
      go :
          (o : Option (Option ℕ))
          → find code s.key_down_list ≡ o
          → find d (release (known_keysym o none) code no_locks o s).1.key_down_list
            ≡ (if str_eq code d then none else find d s.key_down_list)
      go none h = ground (arith, eq_iff code d)
      go (some k) h = find-remove code d s.key_down_list

  find-release_all :
      (d : String) (codes : List String) (s : Keyboard)
      → find d (release_all p codes s).1.key_down_list
        ≡ (if listed d codes then none else find d s.key_down_list)
  unfolding release_all
  find-release_all d [] s = refl
  find-release_all d (code ∷ codes) s =
      let s' = (send_release p code s).1 in
      ground (arith, find-release_all d codes s', find-send_release d code s)

  unlisted : (d : String) (l : KeyDownList) → listed d (codes_of l) ≡ false → find d l ≡ none
  unlisted d [] h = refl
  unlisted d ((c, k) ∷ l) h = ground (arith, unlisted d l)

  nothing_found : (l : KeyDownList) → ((d : String) → find d l ≡ none) → l ≡ []
  nothing_found [] h = refl
  nothing_found ((c, k) ∷ l) h = ground (arith, h c, eq_refl c)

  release_held-empty : (s : Keyboard) → (release_held p s).1.key_down_list ≡ []
  release_held-empty s = nothing_found (release_held p s).1.key_down_list (λ d.
      ground (arith, find-release_all d (codes_of s.key_down_list) s, unlisted d s.key_down_list))

  -- When the window loses the focus after any events, every key that the server holds is released
  -- with its keysym: it holds none.
  pub all_keys_up-released :
      (inputs : List Input)
      → (let s = (handle_inputs inputs new_keyboard).1 in
          replay (all_keys_up p s).0 s.key_down_list ≡ some [])
  unfolding all_keys_up
  all_keys_up-released inputs =
      let s = (handle_inputs inputs new_keyboard).1 in
      let v = (inputs-Consistent inputs new_keyboard new_keyboard-IsValid).valid in
      (all_keys_up-Consistent p s v).accepted
      ∙ ap (λ l. some l) (release_held-empty (interrupt_alt_gr_sequence s).1)
