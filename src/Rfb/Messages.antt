-- ===== src/Rfb/Messages.antt =====
-- `RFB.messages` of core/rfb.js: the messages that the client sends, over the send queue of
-- core/websock.js. The methods of the extended clipboard, but for its clientCutText, are left out.
use proxmox_self_service_por.Prelude.{
  ℕ, ◌+◌, ◌*◌, ◌/◌, ◌%◌, Bool, true, false, ◌&&◌, Option, none, some, List, [], ◌∷◌, ltb, ◌==◌,
  length, if◌then◌else◌,
}
use proxmox_self_service_por.Prelude.Int.{ℤ, pos, ◌-ℤ◌}
use proxmox_self_service_por.Util.Int.{to_unsigned32bit, shift_left}
use proxmox_self_service_por.Websock.State.{Websock, Outcome, done, raised}
use proxmox_self_service_por.Websock.Send.{
  Step, ◌>>◌, sq_push8, sq_push16, sq_push32, sq_push_bytes, sq_push_string, flush,
}

unfoldable pub key_event : ℤ → ℤ → Step
key_event keysym down = do
  sq_push8 (pos 4)
  sq_push8 down
  sq_push16 (pos 0)
  sq_push32 keysym
  flush

-- `getRFBkeycode`
unfoldable pub get_rfb_keycode : ℤ → ℤ
get_rfb_keycode keycode =
    let upper_byte = to_unsigned32bit keycode / 256 in
    let lower_byte = to_unsigned32bit keycode % 256 in
    if upper_byte == 224 && ltb lower_byte 127 then pos (lower_byte + 128) else keycode

unfoldable pub qemu_extended_key_event : ℤ → ℤ → ℤ → Step
qemu_extended_key_event keysym down keycode = do
  sq_push8 (pos 255)
  sq_push8 (pos 0)
  sq_push16 down
  sq_push32 keysym
  sq_push32 (get_rfb_keycode keycode)
  flush

unfoldable pub pointer_event : ℤ → ℤ → ℤ → Step
pointer_event x y mask = do
  sq_push8 (pos 5)
  sq_push8 (pos (to_unsigned32bit mask % 128))
  sq_push16 x
  sq_push16 y
  flush

-- `(mask >> 7) & 0xff`
abbrev pub higher_bits : ℤ → ℕ
higher_bits mask = to_unsigned32bit mask / 128 % 256

-- the pushes that follow the check
unfoldable pub push_pointer : ℤ → ℤ → ℤ → Step
push_pointer x y mask = do
  sq_push8 (pos (to_unsigned32bit mask % 128 + 128))
  sq_push16 x
  sq_push16 y
  sq_push8 (pos (higher_bits mask))
  flush

-- The value is false if the mask is refused; one byte is pushed by then.
unfoldable pub extended_pointer_event : ℤ → ℤ → ℤ → Websock → Bool × Outcome (Unit {0})
extended_pointer_event x y mask ws =
    if ltb (higher_bits mask) 4
    then (true, (sq_push8 (pos 5) >> push_pointer x y mask) ws)
    else (false, sq_push8 (pos 5) ws)

unfoldable pub set_desktop_size : ℤ → ℤ → ℤ → ℤ → Step
set_desktop_size width height id flags = do
  sq_push8 (pos 251)
  sq_push8 (pos 0)
  sq_push16 width
  sq_push16 height
  sq_push8 (pos 1)
  sq_push8 (pos 0)
  sq_push32 id
  sq_push16 (pos 0)
  sq_push16 (pos 0)
  sq_push16 width
  sq_push16 height
  sq_push32 flags
  flush

unfoldable pub enable_continuous_updates : ℤ → ℤ → ℤ → ℤ → ℤ → Step
enable_continuous_updates enable x y width height = do
  sq_push8 (pos 150)
  sq_push8 enable
  sq_push16 x
  sq_push16 y
  sq_push16 width
  sq_push16 height
  flush

abbrev pub bits_per_pixel : ℕ → ℕ
bits_per_pixel depth = if ltb 16 depth then 32 else if ltb 8 depth then 16 else 8

-- `(1 << bits) - 1`
abbrev pub color_max : ℕ → ℤ
color_max bits = shift_left 1 (bits % 32) -ℤ pos 1

unfoldable pub pixel_format : ℕ → Bool → Step
pixel_format depth true_color = do
  sq_push8 (pos 0)
  sq_push8 (pos 0)
  sq_push8 (pos 0)
  sq_push8 (pos 0)
  sq_push8 (pos (bits_per_pixel depth))
  sq_push8 (pos depth)
  sq_push8 (pos 0)
  sq_push8 (pos (if true_color then 1 else 0))
  sq_push16 (color_max (depth / 3))
  sq_push16 (color_max (depth / 3))
  sq_push16 (color_max (depth / 3))
  sq_push8 (pos (depth / 3 * 0))
  sq_push8 (pos (depth / 3 * 1))
  sq_push8 (pos (depth / 3 * 2))
  sq_push8 (pos 0)
  sq_push8 (pos 0)
  sq_push8 (pos 0)
  flush

-- the loop of `clientEncodings`, and its `flush`
unfoldable pub push_encodings : List ℤ → Step
push_encodings [] = flush
push_encodings (e ∷ encodings) = sq_push32 e >> (λ ws. push_encodings encodings ws)

unfoldable pub client_encodings : List ℤ → Step
client_encodings encodings = do
  sq_push8 (pos 2)
  sq_push8 (pos 0)
  sq_push16 (pos (length encodings))
  push_encodings encodings

unfoldable pub fb_update_request : Bool → ℤ → ℤ → ℤ → ℤ → Step
fb_update_request incremental x y w h = do
  sq_push8 (pos 3)
  sq_push8 (pos (if incremental then 1 else 0))
  sq_push16 x
  sq_push16 y
  sq_push16 w
  sq_push16 h
  flush

unfoldable pub xvp_op : ℤ → ℤ → Step
xvp_op ver op = do sq_push8 (pos 250); sq_push8 (pos 0); sq_push8 ver; sq_push8 op; flush

-- A method that pushes an array may not return, which is `none`.
abbrev pub Sender : Type 0
Sender = Websock → Option (Outcome (Unit {0}))

abbrev pub and_flush : Option (Outcome (Unit {0})) → Option (Outcome (Unit {0}))
and_flush none = none
and_flush (some (raised e ws)) = some (raised e ws)
and_flush (some (done _ ws)) = some (flush ws)

abbrev pub and_push : Outcome (Unit {0}) → Sender → Option (Outcome (Unit {0}))
and_push (raised e ws) push = some (raised e ws)
and_push (done _ ws) push = and_flush (push ws)

-- `toUnsigned32bit(-data.length)`
abbrev pub minus_length : List ℕ → ℕ
minus_length data₀ = to_unsigned32bit (pos 0 -ℤ pos (length data₀))

unfoldable pub cut_text_head : List ℕ → Bool → Step
cut_text_head data₀ extended = do
  sq_push8 (pos 6)
  sq_push8 (pos 0)
  sq_push8 (pos 0)
  sq_push8 (pos 0)
  sq_push32 (pos (if extended then minus_length data₀ else length data₀))

unfoldable pub client_cut_text : List ℕ → Bool → Sender
client_cut_text data₀ extended ws = and_push (cut_text_head data₀ extended ws) (sq_push_bytes data₀)

unfoldable pub fence_head : ℤ → List ℕ → Step
fence_head flags payload = do
  sq_push8 (pos 248)
  sq_push8 (pos 0)
  sq_push8 (pos 0)
  sq_push8 (pos 0)
  sq_push32 flags
  sq_push8 (pos (length payload))

unfoldable pub client_fence : ℤ → List ℕ → Sender
client_fence flags payload ws = and_push (fence_head flags payload ws) (sq_push_string payload)
