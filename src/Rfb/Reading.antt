-- ===== src/Rfb/Reading.antt =====
-- A server reads from the bytes of a message of core/rfb.js what was meant.
use proxmox_self_service_por.Prelude.{
  ℕ, ◌+◌, ◌*◌, ◌/◌, ◌%◌, ◌<◌, ◌≡◌, ◌==◌, refl, inl, inr, Bool, true, false, some, List, [], ◌∷◌,
  ◌++◌, arith, length, ltb, map, All, IsByte, if◌then◌else◌,
}
use proxmox_self_service_por.Prelude.Int.{ℤ, pos, negsuc, ◌-ℤ◌, ◌+ℤ◌}
use proxmox_self_service_por.Util.Int.{to_unsigned32bit, signed32, shift_left}
use proxmox_self_service_por.ByteQueue.{shift_bytes-append, ◌>>=◌}
use proxmox_self_service_por.Websock.Send.{byte_at}
use proxmox_self_service_por.Rfb.Messages.{higher_bits, get_rfb_keycode}
use proxmox_self_service_por.Rfb.Server.{
  ClientMessage, key, pointer, set_encodings, update_request, cut_text, xvp, continuous_updates,
  desktop_size, extended_pointer, qemu_key, fence, set_pixel_format, scan_code, read_numbers,
  read_message, IsInt32, IsScanCode, Fits,
}
use proxmox_self_service_por.Rfb.Sending.{layout, numbers}

byte_back : (n : ℕ) → n < 256 → byte_at (pos n) 0 ≡ n
unfolding to_unsigned32bit
byte_back n h = omega arith

word16_back : (n : ℕ) → n < 65536 → byte_at (pos n) 8 * 256 + byte_at (pos n) 0 ≡ n
unfolding to_unsigned32bit
word16_back n h = omega arith

word32_back :
    (n : ℕ)
    → n < 4294967296
    → byte_at (pos n) 24 * 16777216
        + byte_at (pos n) 16 * 65536
        + byte_at (pos n) 8 * 256
        + byte_at (pos n) 0
      ≡ n
unfolding to_unsigned32bit
word32_back n h = omega arith

int32_back :
    (e : ℤ)
    → IsInt32 e
    → signed32 (byte_at e 24 * 16777216 + byte_at e 16 * 65536 + byte_at e 8 * 256 + byte_at e 0)
      ≡ e
unfolding to_unsigned32bit
int32_back (pos n) h = ground arith
int32_back (negsuc n) h = ground arith

mask_back : (n : ℕ) → n < 128 → to_unsigned32bit (pos n) % 128 ≡ n
unfolding to_unsigned32bit
mask_back n h = omega arith

read_numbers-numbers :
    (es : List ℤ) (q : List ℕ)
    → All IsInt32 es
    → read_numbers (length es) (numbers es ++ q) ≡ some (es, q)
unfolding read_numbers
read_numbers-numbers [] q h = refl
read_numbers-numbers (e ∷ es) q h =
    rw (read_numbers-numbers es q h.1, ◌>>=◌) (rw (int32_back e h.0))

same_word : (n : ℕ) → (n == n) ≡ true
same_word n = ground arith

-- The two bytes of an extended mask.
low_bits_back : (n : ℕ) → byte_at (pos (to_unsigned32bit (pos n) % 128 + 128)) 0 ≡ n % 128 + 128
unfolding to_unsigned32bit
low_bits_back n = omega arith

high_bits_back : (n : ℕ) → n < 512 → byte_at (pos (higher_bits (pos n))) 0 ≡ n / 128
unfolding to_unsigned32bit
high_bits_back n h = omega arith

-- the keycode of a scan code
code : ℕ → ℕ
code n = if ltb n 128 then n else n % 256 + 128

get_rfb_keycode-code : (n : ℕ) → IsScanCode n → get_rfb_keycode (pos n) ≡ pos (code n)
unfolding get_rfb_keycode to_unsigned32bit code
get_rfb_keycode-code n (inl h) = ground arith
get_rfb_keycode-code n (inr (l, h)) = ground arith

scan_code-code : (n : ℕ) → IsScanCode n → scan_code (code n) ≡ n
unfolding code
scan_code-code n (inl h) = ground arith
scan_code-code n (inr (l, h)) = ground arith

code-less : (n : ℕ) → code n < 4294967296
unfolding code
code-less n = ground arith

bytes_back : (xs : List ℕ) → All IsByte xs → map (λ c. c % 256) xs ≡ xs
bytes_back [] h = refl
bytes_back (x ∷ xs) (h, t) = let e : x % 256 ≡ x = omega arith in rw (e, bytes_back xs t) refl

-- The two depths that the client uses, in numbers.
set_pixel_format_back :
    (depth : ℕ) (true_color : Bool) (q : List ℕ)
    → Fits (set_pixel_format depth true_color)
    → read_message (layout (set_pixel_format depth true_color) ++ q)
      ≡ some (set_pixel_format depth true_color, q)
unfolding to_unsigned32bit shift_left ◌-ℤ◌ ◌+ℤ◌
set_pixel_format_back depth true q (inl e) = rw e refl
set_pixel_format_back depth true q (inr e) = rw e refl
set_pixel_format_back depth false q (inl e) = rw e refl
set_pixel_format_back depth false q (inr e) = rw e refl

-- A server reads the message back from its bytes, and no byte of what follows.
pub read_message-layout :
    (m : ClientMessage) (q : List ℕ) → Fits m → read_message (layout m ++ q) ≡ some (m, q)
read_message-layout (key keysym down) q h =
    rw (byte_back 4 (omega arith), byte_back down h.1, word32_back keysym h.0)
read_message-layout (pointer x y mask) q h =
    let low : ltb mask 128 ≡ true = ground arith in
    rw (
      byte_back 5 (omega arith),
      mask_back mask h.2,
      byte_back mask (omega (arith, h.2)),
      word16_back x h.0,
      word16_back y h.1,
      low,
    )
read_message-layout (set_encodings encodings) q h =
    rw (byte_back 2 (omega arith), word16_back (length encodings) h.0)
      (rw (read_numbers-numbers encodings q h.1, ◌>>=◌))
read_message-layout (update_request true x y w h') q h = rw (
  byte_back 3 (omega arith),
  byte_back 1 (omega arith),
  word16_back x h.0,
  word16_back y h.1,
  word16_back w h.2,
  word16_back h' h.3,
)
read_message-layout (update_request false x y w h') q h = rw (
  byte_back 3 (omega arith),
  byte_back 0 (omega arith),
  word16_back x h.0,
  word16_back y h.1,
  word16_back w h.2,
  word16_back h' h.3,
)
read_message-layout (cut_text text) q h =
    rw (byte_back 6 (omega arith), word32_back (length text) h)
      (rw (shift_bytes-append text q refl, ◌>>=◌))
read_message-layout (xvp ver op) q h =
    rw (byte_back 250 (omega arith), byte_back ver h.0, byte_back op h.1)
read_message-layout (continuous_updates enable x y w h') q h = rw (
  byte_back 150 (omega arith),
  byte_back enable h.0,
  word16_back x h.1,
  word16_back y h.2,
  word16_back w h.3,
  word16_back h' h.4,
)
read_message-layout (desktop_size w h' id flags) q h = rw (
  byte_back 251 (omega arith),
  word16_back w h.0,
  word16_back h' h.1,
  word32_back id h.2,
  word32_back flags h.3,
  byte_back 1 (omega arith),
  word16_back 0 (omega arith),
  same_word w,
  same_word h',
)
read_message-layout (extended_pointer x y mask) q h =
    let high : ltb (mask % 128 + 128) 128 ≡ false = ground arith in
    let whole : (mask % 128 + 128) % 128 + mask / 128 * 128 ≡ mask = omega arith in
    rw (
      byte_back 5 (omega arith),
      low_bits_back mask,
      word16_back x h.0,
      word16_back y h.1,
      high,
      high_bits_back mask h.2,
      whole,
    )
read_message-layout (qemu_key keysym down keycode) q h = rw (
  byte_back 255 (omega arith),
  byte_back 0 (omega arith),
  word16_back down h.1,
  word32_back keysym h.0,
  get_rfb_keycode-code keycode h.2,
  word32_back (code keycode) (code-less keycode),
  scan_code-code keycode h.2,
)
read_message-layout (fence flags payload) q h =
    rw
      (
        byte_back 248 (omega arith),
        word32_back flags h.0,
        byte_back (length payload) h.1,
        bytes_back payload h.2,
      )
      (rw (shift_bytes-append payload q refl, ◌>>=◌))
read_message-layout (set_pixel_format depth true_color) q h =
    set_pixel_format_back depth true_color q h
