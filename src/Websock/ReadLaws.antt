-- ===== src/Websock/ReadLaws.antt =====
-- The reads of core/websock.js are those of a byte queue, as long as the bytes are there.
use Prim.Native.Nat.{min}
use mathlib.Core.Path.{subst}
use native.Mathlib.Nat.{mul-one}
use native.Mathlib.Numerals.{add-one}
use proxmox_self_service_por.Prelude.{
  ℕ, suc, ◌+◌, ◌-◌, ◌*◌, ◌^◌, ◌≤◌, ◌<◌, ◌≡◌, ap, ◌∙◌, false, some, ◌∷◌, arith, length, ltb, All,
  IsByte,
}
use proxmox_self_service_por.Prelude.Int.{ℤ, pos, ◌+ℤ◌}
use proxmox_self_service_por.Js.Bytes.{window, length-window, take-window, drop-window}
use proxmox_self_service_por.Util.Int.{to_unsigned32bit, signed32, shift_left}
use proxmox_self_service_por.ByteQueue.{shift8, shift16, shift32, shift_bytes}
use proxmox_self_service_por.Websock.State.{Websock}
use proxmox_self_service_por.Websock.Receive.{
  shifted_cell, rq_shift8, rq_shift16, rq_shift32, rq_shift_bytes,
}
use proxmox_self_service_por.Websock.Unread.{unread, IsValid, length-unread}

zero-+ℤ : (z : ℤ) → pos 0 +ℤ z ≡ z
unfolding ◌+ℤ◌
zero-+ℤ z = ground arith

+ℤ-pos_pos : (z : ℤ) (m n : ℕ) → z +ℤ pos m +ℤ pos n ≡ z +ℤ pos (m + n)
unfolding ◌+ℤ◌
+ℤ-pos_pos z m n = ground arith

-- A shift that stays below the sign bit is a product.
shift_left_small : (a k : ℕ) → a * 2 ^ k < 2 ^ 31 → shift_left a k ≡ pos (a * 2 ^ k)
unfolding shift_left
shift_left_small a k h = ground arith

-- `>>> 0` undoes the sign that a shift into the top bit has set.
unsigned-signed : (w n : ℕ) → w + n < 2 ^ 32 → to_unsigned32bit (signed32 w +ℤ pos n) ≡ w + n
unfolding to_unsigned32bit ◌+ℤ◌
unsigned-signed w n h = ground arith

unsigned-pos : (n : ℕ) → n < 2 ^ 32 → to_unsigned32bit (pos n) ≡ n
unfolding to_unsigned32bit
unsigned-pos n h = omega arith

shift_left_top : (a : ℕ) → a < 256 → shift_left a 24 ≡ signed32 (a * 16777216)
unfolding shift_left
shift_left_top a h = ap signed32 (omega arith)

-- Four shifted bytes add up to the big-endian number: the sign of the first is undone at the end.
sum_of_bytes :
    (a b c d : ℕ)
    → a < 256
    → b < 256
    → c < 256
    → d < 256
    → to_unsigned32bit
        (pos 0 +ℤ shift_left a 24 +ℤ shift_left b 16 +ℤ shift_left c 8 +ℤ shift_left d 0)
      ≡ a * 16777216 + b * 65536 + c * 256 + d
sum_of_bytes a b c d ha hb hc hd =
    simp
      (
        zero-+ℤ,
        shift_left_top a ha,
        shift_left_small b 16 (omega arith),
        shift_left_small c 8 (omega arith),
        shift_left_small d 0 (omega arith),
        +ℤ-pos_pos,
      )
      (unsigned-signed (a * 16777216) _ (omega arith) ∙ omega arith)

pos-+ℤ : (m n : ℕ) → pos m +ℤ pos n ≡ pos (m + n)
unfolding ◌+ℤ◌
pos-+ℤ m n = ground arith

sum_of_two :
    (a b : ℕ)
    → a < 256
    → b < 256
    → to_unsigned32bit (pos 0 +ℤ shift_left a 8 +ℤ shift_left b 0) ≡ a * 256 + b
sum_of_two a b ha hb =
    simp (zero-+ℤ, shift_left_small a 8 (omega arith), shift_left_small b 0 (omega arith), pos-+ℤ)
      (unsigned-pos _ (omega arith) ∙ omega arith)

unread_cons :
    (f : ℕ → ℕ) (i n : ℕ) → i < n → window f i (n - i) ≡ f i ∷ window f (i + 1) (n - (i + 1))
unread_cons f i n h = let e : n - i ≡ suc (n - (i + 1)) = omega arith in rw (e, add-one)

module _ (ws : Websock) (v : IsValid ws) where
  in_array : (i k : ℕ) → i < ws.rq_len → shifted_cell ws.rq i k ≡ shift_left (ws.rq.cell i) k
  in_array i k h = ground arith

  -- With a byte there, `rQshift8` returns what the byte queue returns and leaves the same rest.
  pub rq_shift8-shift8 :
      All IsByte (unread ws)
      → 1 ≤ length (unread ws)
      → shift8 (unread ws) ≡ some ((rq_shift8 ws).0, unread (rq_shift8 ws).1)
  unfolding rq_shift8
  rq_shift8-shift8 bytes h =
      let i = ws.rq_i in
      let h' : i < ws.rq_len = omega (arith, length-unread ws) in
      let split = unread_cons ws.rq.cell i ws.rq_len h' in
      let byte : ws.rq.cell i < 256 = (subst (All IsByte) split bytes).0 in
      rw (
        split,
        in_array i 0 h',
        shift_left_small (ws.rq.cell i) 0 (omega arith),
        zero-+ℤ,
        unsigned-pos (ws.rq.cell i * 1) (omega arith),
        mul-one,
      )

  -- With two bytes there, `rQshift16` returns what the byte queue returns and leaves the same rest.
  pub rq_shift16-shift16 :
      All IsByte (unread ws)
      → 2 ≤ length (unread ws)
      → shift16 (unread ws) ≡ some ((rq_shift16 ws).0, unread (rq_shift16 ws).1)
  unfolding rq_shift16
  rq_shift16-shift16 bytes h =
      let i = ws.rq_i in
      let h' : i + 1 < ws.rq_len = omega (arith, length-unread ws) in
      let split =
        unread_cons ws.rq.cell i ws.rq_len (omega arith)
        ∙ ap (λ t. ws.rq.cell i ∷ t) (unread_cons ws.rq.cell (i + 1) ws.rq_len h') in
      let (b₀, r₀) = subst (All IsByte) split bytes in
      let (b₁, _) = r₀ in
      rw (split, in_array i 8 (omega arith), in_array (i + 1) 0 h', sum_of_two _ _ b₀ b₁)

  -- With four bytes there, `rQshift32` returns what the byte queue returns and leaves the same rest.
  pub rq_shift32-shift32 :
      All IsByte (unread ws)
      → 4 ≤ length (unread ws)
      → shift32 (unread ws) ≡ some ((rq_shift32 ws).0, unread (rq_shift32 ws).1)
  unfolding rq_shift32
  rq_shift32-shift32 bytes h =
      let f = ws.rq.cell in
      let i = ws.rq_i in
      let h' : i + 1 + 1 + 1 < ws.rq_len = omega (arith, length-unread ws) in
      let split =
        unread_cons f i ws.rq_len (omega arith)
        ∙ ap (λ t. f i ∷ t) (unread_cons f (i + 1) ws.rq_len (omega arith))
        ∙ ap (λ t. f i ∷ f (i + 1) ∷ t) (unread_cons f (i + 1 + 1) ws.rq_len (omega arith))
        ∙ ap (λ t. f i ∷ f (i + 1) ∷ f (i + 1 + 1) ∷ t)
            (unread_cons f (i + 1 + 1 + 1) ws.rq_len h') in
      let (b₀, r₀) = subst (All IsByte) split bytes in
      let (b₁, r₁) = r₀ in
      let (b₂, r₂) = r₁ in
      let (b₃, _) = r₂ in
      rw (
        split,
        in_array i 24 (omega arith),
        in_array (i + 1) 16 (omega arith),
        in_array (i + 1 + 1) 8 (omega arith),
        in_array (i + 1 + 1 + 1) 0 h',
        sum_of_bytes _ _ _ _ b₀ b₁ b₂ b₃,
      )

  -- With `len` bytes there, `rQshiftBytes` returns them and leaves the rest.
  pub rq_shift_bytes-shift_bytes :
      (len : ℕ)
      → len ≤ length (unread ws)
      → shift_bytes len (unread ws)
        ≡ some ((rq_shift_bytes ws len).0, unread (rq_shift_bytes ws len).1)
  unfolding rq_shift_bytes
  rq_shift_bytes-shift_bytes len h =
      let i = ws.rq_i in
      let m = ws.rq_len - (i + len) in
      let e : ws.rq_len - i ≡ len + m = omega (arith, length-unread ws) in
      let e₁ : i + len - len ≡ i = omega arith in
      let e₂ : min (i + len) ws.rq.size - i ≡ len = omega (arith, length-unread ws) in
      let enough : ltb (len + m) len ≡ false = ground arith in
      rw (e₁, e₂, e, length-window, enough, take-window, drop-window)
