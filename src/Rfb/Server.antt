-- ===== src/Rfb/Server.antt =====
-- A server's view of the messages that core/rfb.js sends: the client messages of the RFB protocol, and
-- a parser for them that is written from the protocol, message by message.
use proxmox_self_service_por.Prelude.{
  ℕ, zero, suc, ◌+◌, ◌-◌, ◌*◌, ◌/◌, ◌%◌, ◌^◌, ◌≤◌, ◌<◌, ◌≡◌, ◌⊎◌, leb, Bool, ◌&&◌, none, List, [],
  ◌∷◌, ltb, ◌==◌, length, All, IsByte, if◌then◌else◌,
}
use proxmox_self_service_por.Prelude.Int.{ℤ, pos, negsuc}
use proxmox_self_service_por.Util.Int.{signed32}
use proxmox_self_service_por.ByteQueue.{
  Reader, pure, ◌>>=◌, ◌>>◌, shift8, shift16, shift32, shift_bytes,
}

pub data ClientMessage : Type 0 where
  key : ℕ → ℕ → ClientMessage
  pointer : ℕ → ℕ → ℕ → ClientMessage
  set_encodings : List ℤ → ClientMessage
  update_request : Bool → ℕ → ℕ → ℕ → ℕ → ClientMessage
  cut_text : List ℕ → ClientMessage
  xvp : ℕ → ℕ → ClientMessage
  continuous_updates : ℕ → ℕ → ℕ → ℕ → ℕ → ClientMessage
  desktop_size : ℕ → ℕ → ℕ → ℕ → ClientMessage
  extended_pointer : ℕ → ℕ → ℕ → ClientMessage
  qemu_key : ℕ → ℕ → ℕ → ClientMessage
  fence : ℕ → List ℕ → ClientMessage
  set_pixel_format : ℕ → Bool → ClientMessage

-- not a message
abbrev pub refuse : Reader ClientMessage
refuse q = none

-- KeyEvent: down-flag, two bytes of padding, key
abbrev read_key : Reader ClientMessage
read_key = do down ← shift8; shift16; keysym ← shift32; pure (key keysym down)

-- PointerEvent: button mask, x, y; if bit 7 of the mask is set, the mask's other bits follow
abbrev read_pointer : Reader ClientMessage
read_pointer = do
  mask ← shift8
  x ← shift16
  y ← shift16
  if ltb mask 128
      then pure (pointer x y mask)
      else shift8 >>= (λ upper. pure (extended_pointer x y (mask % 128 + upper * 128)))

-- the scan code of a key, from a keycode of the protocol: bit 7 stands for the prefix e0
abbrev pub scan_code : ℕ → ℕ
scan_code code = if ltb code 128 then code else 57344 + (code - 128)

-- QEMU Extended Key Event: submessage type, down-flag, key, keycode
abbrev read_qemu_key : Reader ClientMessage
read_qemu_key = do
  kind ← shift8
  down ← shift16
  keysym ← shift32
  code ← shift32
  if kind == 0 then pure (qemu_key keysym down (scan_code code)) else refuse

-- ClientFence: three bytes of padding, flags, length, payload
abbrev read_client_fence : Reader ClientMessage
read_client_fence = do
  shift8
  shift16
  flags ← shift32
  n ← shift8
  payload ← shift_bytes n
  pure (fence flags payload)

-- the bits of a colour of true-colour pixels, in which the colours are as large
abbrev pub bits_of : ℕ → ℕ
bits_of depth = depth / 3

-- SetPixelFormat: three bytes of padding, bits per pixel, depth, big-endian-flag, true-colour-flag, the
-- colours' greatest values and shifts, three bytes of padding. A client means it only with
-- little-endian pixels that the depth fits in, and red lowest, then green, then blue.
abbrev read_set_pixel_format : Reader ClientMessage
read_set_pixel_format = do
  shift8
  shift16
  bpp ← shift8
  depth ← shift8
  big_endian ← shift8
  true_color ← shift8
  red_max ← shift16
  green_max ← shift16
  blue_max ← shift16
  red ← shift8
  green ← shift8
  blue ← shift8
  shift8
  shift16
  if big_endian == 0
        && leb depth bpp
        && red_max + 1 == 2 ^ bits_of depth
        && green_max == red_max
        && blue_max == red_max
        && red == 0
        && green == bits_of depth
        && blue == 2 * bits_of depth
      then pure (set_pixel_format depth (ltb 0 true_color))
      else refuse

-- `n` signed numbers
unfoldable pub read_numbers : ℕ → Reader (List ℤ)
read_numbers zero = pure []
read_numbers (suc n) = do e ← shift32; es ← (λ q. read_numbers n q); pure (signed32 e ∷ es)

-- SetEncodings: padding, number of encodings, encodings
abbrev read_set_encodings : Reader ClientMessage
read_set_encodings = do
  shift8
  count ← shift16
  encodings ← read_numbers count
  pure (set_encodings encodings)

-- FramebufferUpdateRequest: incremental, x, y, width, height
abbrev read_update_request : Reader ClientMessage
read_update_request = do
  incremental ← shift8
  x ← shift16
  y ← shift16
  w ← shift16
  h ← shift16
  pure (update_request (ltb 0 incremental) x y w h)

-- ClientCutText: three bytes of padding, length, text
abbrev read_cut_text : Reader ClientMessage
read_cut_text = do shift8; shift16; n ← shift32; text ← shift_bytes n; pure (cut_text text)

-- xvp: padding, version, operation
abbrev read_xvp : Reader ClientMessage
read_xvp = do shift8; ver ← shift8; op ← shift8; pure (xvp ver op)

-- EnableContinuousUpdates: enable-flag, x, y, width, height
abbrev read_continuous_updates : Reader ClientMessage
read_continuous_updates = do
  enable ← shift8
  x ← shift16
  y ← shift16
  w ← shift16
  h ← shift16
  pure (continuous_updates enable x y w h)

-- SetDesktopSize: padding, width, height, number of screens, padding, id, position, size and flags of
-- the screen. It is one that a client means only with one screen, which is all of the desktop.
abbrev read_desktop_size : Reader ClientMessage
read_desktop_size = do
  shift8
  w ← shift16
  h ← shift16
  screens ← shift8
  shift8
  id ← shift32
  x ← shift16
  y ← shift16
  screen_w ← shift16
  screen_h ← shift16
  flags ← shift32
  if screens == 1 && x == 0 && y == 0 && screen_w == w && screen_h == h
      then pure (desktop_size w h id flags)
      else refuse

-- by the message type
abbrev pub read_body : ℕ → Reader ClientMessage
read_body tag q =
    if tag == 0
    then read_set_pixel_format q
    else if tag == 2
    then read_set_encodings q
    else if tag == 3
    then read_update_request q
    else if tag == 4
    then read_key q
    else if tag == 5
    then read_pointer q
    else if tag == 6
    then read_cut_text q
    else if tag == 150
    then read_continuous_updates q
    else if tag == 250
    then read_xvp q
    else if tag == 251
    then read_desktop_size q
    else if tag == 248
    then read_client_fence q
    else if tag == 255
    then read_qemu_key q
    else none

abbrev pub read_message : Reader ClientMessage
read_message = shift8 >>= read_body

-- as many messages as given
abbrev pub read_messages : ℕ → Reader (List ClientMessage)
read_messages zero = pure []
read_messages (suc n) = do m ← read_message; ms ← (λ q. read_messages n q); pure (m ∷ ms)

-- The fields fit in their bytes.
abbrev pub IsWord16 : ℕ → Type 0
IsWord16 n = n < 65536

abbrev pub IsWord32 : ℕ → Type 0
IsWord32 n = n < 4294967296

-- a signed number of 32 bits
abbrev pub IsInt32 : ℤ → Type 0
IsInt32 (pos n) = n < 2147483648
IsInt32 (negsuc n) = n < 2147483648

-- a scan code of one byte, or of one with the prefix e0
abbrev pub IsScanCode : ℕ → Type 0
IsScanCode n = (n < 128) ⊎ ((57344 ≤ n) × (n < 57471))

abbrev pub Fits : ClientMessage → Type 0
Fits (key keysym down) = IsWord32 keysym × (down < 256)
Fits (pointer x y mask) = IsWord16 x × IsWord16 y × (mask < 128)
Fits (set_encodings encodings) = IsWord16 (length encodings) × All IsInt32 encodings
Fits (update_request incremental x y w h) = IsWord16 x × IsWord16 y × IsWord16 w × IsWord16 h
Fits (cut_text text) = IsWord32 (length text)
Fits (xvp ver op) = (ver < 256) × (op < 256)
Fits (continuous_updates enable x y w h) =
    (enable < 256) × IsWord16 x × IsWord16 y × IsWord16 w × IsWord16 h
Fits (desktop_size w h id flags) = IsWord16 w × IsWord16 h × IsWord32 id × IsWord32 flags
Fits (extended_pointer x y mask) = IsWord16 x × IsWord16 y × (mask < 512)
Fits (qemu_key keysym down keycode) = IsWord32 keysym × IsWord16 down × IsScanCode keycode
Fits (fence flags payload) = IsWord32 flags × (length payload < 256) × All IsByte payload
Fits (set_pixel_format depth true_color) = (depth ≡ 8) ⊎ (depth ≡ 24)
