-- ===== src/Rfb/Sending.antt =====
-- What core/rfb.js sends is what arrives: every message, whole and in order.
use proxmox_self_service_por.Prelude.{
  ℕ, ◌+◌, ◌*◌, ◌/◌, ◌%◌, ◌<◌, ◌≡◌, refl, true, false, some, List, [], ◌∷◌, ◌++◌, arith, length, ltb,
  map, if◌then◌else◌,
}
use proxmox_self_service_por.Prelude.Int.{ℤ, pos}
use proxmox_self_service_por.Util.Int.{to_unsigned32bit}
use proxmox_self_service_por.Websock.State.{Websock}
use proxmox_self_service_por.Websock.Send.{Step, sq_push_string}
use proxmox_self_service_por.Websock.SendLaws.{IsReady}
use proxmox_self_service_por.Rfb.Messages.{
  Sender, key_event, pointer_event, client_encodings, push_encodings, fb_update_request,
  client_cut_text, cut_text_head, xvp_op, enable_continuous_updates, set_desktop_size,
  extended_pointer_event, push_pointer, higher_bits, qemu_extended_key_event, get_rfb_keycode,
  client_fence, fence_head, pixel_format, bits_per_pixel, color_max,
}
use proxmox_self_service_por.Rfb.Delivery.{
  u8, u16, u32, Delivers, Arrives, push8, push16, push32, flushes, ◌then◌, ◌also◌, pushed_bytes,
}
use proxmox_self_service_por.Rfb.Server.{
  ClientMessage, key, pointer, set_encodings, update_request, cut_text, xvp, continuous_updates,
  desktop_size, extended_pointer, qemu_key, fence, set_pixel_format, Fits,
}

-- the method for a message
abbrev pub send : ClientMessage → Sender
send (key keysym down) ws = some (key_event (pos keysym) (pos down) ws)
send (pointer x y mask) ws = some (pointer_event (pos x) (pos y) (pos mask) ws)
send (set_encodings encodings) ws = some (client_encodings encodings ws)
send (update_request incremental x y w h) ws =
    some (fb_update_request incremental (pos x) (pos y) (pos w) (pos h) ws)
send (cut_text text) ws = client_cut_text text false ws
send (xvp ver op) ws = some (xvp_op (pos ver) (pos op) ws)
send (continuous_updates enable x y w h) ws =
    some (enable_continuous_updates (pos enable) (pos x) (pos y) (pos w) (pos h) ws)
send (desktop_size w h id flags) ws =
    some (set_desktop_size (pos w) (pos h) (pos id) (pos flags) ws)
send (extended_pointer x y mask) ws = some (extended_pointer_event (pos x) (pos y) (pos mask) ws).1
send (qemu_key keysym down keycode) ws =
    some (qemu_extended_key_event (pos keysym) (pos down) (pos keycode) ws)
send (fence flags payload) ws = client_fence (pos flags) payload ws
send (set_pixel_format depth true_color) ws = some (pixel_format depth true_color ws)

abbrev pub numbers : List ℤ → List ℕ
numbers [] = []
numbers (e ∷ es) = u32 e ++ numbers es

-- the bytes of a message, as the pushes put them
abbrev pub layout : ClientMessage → List ℕ
layout (key keysym down) = u8 (pos 4) ++ u8 (pos down) ++ u16 (pos 0) ++ u32 (pos keysym)
layout (pointer x y mask) =
    u8 (pos 5) ++ u8 (pos (to_unsigned32bit (pos mask) % 128)) ++ u16 (pos x) ++ u16 (pos y)
layout (set_encodings encodings) =
    u8 (pos 2) ++ u8 (pos 0) ++ u16 (pos (length encodings)) ++ numbers encodings
layout (update_request incremental x y w h) =
    u8 (pos 3)
    ++ u8 (pos (if incremental then 1 else 0))
    ++ u16 (pos x)
    ++ u16 (pos y)
    ++ u16 (pos w)
    ++ u16 (pos h)
layout (cut_text text) =
    u8 (pos 6) ++ u8 (pos 0) ++ u8 (pos 0) ++ u8 (pos 0) ++ u32 (pos (length text)) ++ text
layout (xvp ver op) = u8 (pos 250) ++ u8 (pos 0) ++ u8 (pos ver) ++ u8 (pos op)
layout (continuous_updates enable x y w h) =
    u8 (pos 150) ++ u8 (pos enable) ++ u16 (pos x) ++ u16 (pos y) ++ u16 (pos w) ++ u16 (pos h)
layout (desktop_size w h id flags) =
    u8 (pos 251)
    ++ u8 (pos 0)
    ++ u16 (pos w)
    ++ u16 (pos h)
    ++ u8 (pos 1)
    ++ u8 (pos 0)
    ++ u32 (pos id)
    ++ u16 (pos 0)
    ++ u16 (pos 0)
    ++ u16 (pos w)
    ++ u16 (pos h)
    ++ u32 (pos flags)
layout (extended_pointer x y mask) =
    u8 (pos 5)
    ++ u8 (pos (to_unsigned32bit (pos mask) % 128 + 128))
    ++ u16 (pos x)
    ++ u16 (pos y)
    ++ u8 (pos (higher_bits (pos mask)))
layout (qemu_key keysym down keycode) =
    u8 (pos 255)
    ++ u8 (pos 0)
    ++ u16 (pos down)
    ++ u32 (pos keysym)
    ++ u32 (get_rfb_keycode (pos keycode))
layout (fence flags payload) =
    u8 (pos 248)
    ++ u8 (pos 0)
    ++ u8 (pos 0)
    ++ u8 (pos 0)
    ++ u32 (pos flags)
    ++ u8 (pos (length payload))
    ++ map (λ c. c % 256) payload
layout (set_pixel_format depth true_color) =
    u8 (pos 0)
    ++ u8 (pos 0)
    ++ u8 (pos 0)
    ++ u8 (pos 0)
    ++ u8 (pos (bits_per_pixel depth))
    ++ u8 (pos depth)
    ++ u8 (pos 0)
    ++ u8 (pos (if true_color then 1 else 0))
    ++ u16 (color_max (depth / 3))
    ++ u16 (color_max (depth / 3))
    ++ u16 (color_max (depth / 3))
    ++ u8 (pos (depth / 3 * 0))
    ++ u8 (pos (depth / 3 * 1))
    ++ u8 (pos (depth / 3 * 2))
    ++ u8 (pos 0)
    ++ u8 (pos 0)
    ++ u8 (pos 0)

one_step :
    {bytes : List ℕ} {k : Step} (ws : Websock)
    → Delivers bytes k
    → IsReady ws
    → Arrives ws bytes (some (k ws))
one_step {bytes} {k} ws d r = (k ws, refl, d.delivers ws r)

push_encodings-Delivers : (es : List ℤ) → Delivers (numbers es) (push_encodings es)
unfolding push_encodings
push_encodings-Delivers [] = flushes
push_encodings-Delivers (e ∷ es) = push32 e then push_encodings-Delivers es

higher_bits-few : (mask : ℕ) → mask < 512 → ltb (higher_bits (pos mask)) 4 ≡ true
unfolding to_unsigned32bit
higher_bits-few mask h = ground arith

extended_pointer-Arrives :
    (x y mask : ℕ) (ws : Websock)
    → IsReady ws
    → mask < 512
    → Arrives ws
        (layout (extended_pointer x y mask))
        (some (extended_pointer_event (pos x) (pos y) (pos mask) ws).1)
unfolding extended_pointer_event push_pointer
extended_pointer-Arrives x y mask ws r h =
    rw (higher_bits-few mask h)
      (one_step ws (push8 _ then push8 _ then push16 _ then push16 _ then push8 _ then flushes) r)

-- On an open channel a message is delivered at once.
pub send-Arrives :
    (m : ClientMessage) (ws : Websock) → IsReady ws → Fits m → Arrives ws (layout m) (send m ws)
unfolding key_event pointer_event client_encodings fb_update_request client_cut_text cut_text_head
    xvp_op enable_continuous_updates set_desktop_size qemu_extended_key_event client_fence
    fence_head sq_push_string pixel_format
send-Arrives (key keysym down) ws r _ =
    one_step ws (push8 _ then push8 _ then push16 _ then push32 _ then flushes) r
send-Arrives (pointer x y mask) ws r _ =
    one_step ws (push8 _ then push8 _ then push16 _ then push16 _ then flushes) r
send-Arrives (set_encodings encodings) ws r _ =
    one_step ws (push8 _ then push8 _ then push16 _ then push_encodings-Delivers encodings) r
send-Arrives (update_request incremental x y w h) ws r _ =
    one_step ws
      (push8 _ then push8 _ then push16 _ then push16 _ then push16 _ then push16 _ then flushes) r
send-Arrives (cut_text text) ws r _ =
    pushed_bytes _ _ text ws (push8 _ also push8 _ also push8 _ also push8 _ also push32 _) r
send-Arrives (xvp ver op) ws r _ =
    one_step ws (push8 _ then push8 _ then push8 _ then push8 _ then flushes) r
send-Arrives (continuous_updates enable x y w h) ws r _ =
    one_step ws
      (push8 _ then push8 _ then push16 _ then push16 _ then push16 _ then push16 _ then flushes) r
send-Arrives (desktop_size w h id flags) ws r _ =
    one_step ws
      (push8 _
        then push8 _
        then push16 _
        then push16 _
        then push8 _
        then push8 _
        then push32 _
        then push16 _
        then push16 _
        then push16 _
        then push16 _
        then push32 _
        then flushes)
      r
send-Arrives (extended_pointer x y mask) ws r (_, _, h) = extended_pointer-Arrives x y mask ws r h
send-Arrives (qemu_key keysym down keycode) ws r _ =
    one_step ws (push8 _ then push8 _ then push16 _ then push32 _ then push32 _ then flushes) r
send-Arrives (fence flags payload) ws r _ =
    pushed_bytes _ _ (map (λ c. c % 256) payload) ws
      (push8 _ also push8 _ also push8 _ also push8 _ also push32 _ also push8 _) r
send-Arrives (set_pixel_format depth true_color) ws r _ =
    one_step ws
      (push8 _
        then push8 _
        then push8 _
        then push8 _
        then push8 _
        then push8 _
        then push8 _
        then push8 _
        then push16 _
        then push16 _
        then push16 _
        then push8 _
        then push8 _
        then push8 _
        then push8 _
        then push8 _
        then push8 _
        then flushes)
      r
