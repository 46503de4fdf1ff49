-- ===== src/Base64/RoundTrip.antt =====
-- What core/base64.js encodes it decodes to the same bytes.
use mathlib.Core.List.{append-nil, append_assoc}
use mathlib.Core.Option
use proxmox_self_service_por.Prelude.{
  ℕ, zero, suc, ◌+◌, ◌-◌, ◌*◌, ◌/◌, ◌%◌, ◌<◌, ◌≡◌, refl, sym, ap, ◌∙◌, Bool, true, false, ◌&&◌,
  Option, none, some, List, [], ◌∷◌, ◌++◌, ltb, ◌==◌, length, map, if◌then◌else◌, arith, All,
  IsByte,
}
use proxmox_self_service_por.Base64.{
  char_at, encode, binary_at, collect, append_to, decode_loop, index_of_pad, data_length,
  result_length, decode, base64_pad,
}

abbrev same_option : Option ℕ → ℕ → Bool
same_option none n = false
same_option (some m) n = m == n

-- The tables undo each other at `i`, and `i` is not encoded as the padding.
checks : ℕ → Bool
unfolding char_at binary_at
checks i =
    same_option (binary_at (char_at i % 128)) i && (if char_at i == base64_pad then false else true)

below : ℕ → Bool
below zero = true
below (suc n) = checks n && below n

all_checked : below 64 ≡ true
unfolding below checks char_at binary_at
all_checked = refl

below_lem : (n i : ℕ) → below n ≡ true → i < n → checks i ≡ true
unfolding below
below_lem zero i h lt = absurd (omega arith)
below_lem (suc n) i h lt = ground (arith, below_lem n i)

same_option_lem : (o : Option ℕ) (n : ℕ) → same_option o n ≡ true → o ≡ some n
same_option_lem none n h = cc
same_option_lem (some m) n h = ground arith

binary_of_char : (i : ℕ) → i < 64 → binary_at (char_at i % 128) ≡ some i
unfolding checks
binary_of_char i h = let c = below_lem 64 i all_checked h in same_option_lem _ i (ground arith)

not_pad : (i : ℕ) → i < 64 → (char_at i == base64_pad) ≡ false
unfolding checks
not_pad i h = let c = below_lem 64 i all_checked h in ground arith

append_nothing : (o : Option (List ℕ)) → append_to [] o ≡ o
append_nothing none = refl
append_nothing (some l) = refl

append_twice :
    (xs ys : List ℕ) (o : Option (List ℕ)) → append_to xs (append_to ys o) ≡ append_to (xs ++ ys) o
append_twice xs ys none = refl
append_twice xs ys (some l) = ap (λ t. some t) (sym (append_assoc xs ys l))

-- A round with the character of a number below 64.
loop_char :
    (i bits d : ℕ) (rest : List ℕ)
    → i < 64
    → decode_loop (char_at i ∷ rest) bits d ≡ (
        let r = collect false (bits + 6) (d * 64 + i) in
        append_to r.appended (decode_loop rest r.left_bits r.left_data))
unfolding decode_loop
loop_char i bits d rest h = rw (not_pad i h, binary_of_char i h)

char0 : (i : ℕ) (rest : List ℕ) → i < 64 → decode_loop (char_at i ∷ rest) 0 0 ≡ decode_loop rest 6 i
char0 i rest h =
    loop_char i 0 0 rest h
    ∙ append_nothing _
    ∙ ap (decode_loop rest 6) {x = 0 * 64 + i} (omega arith)

char6 :
    (i d : ℕ) (rest : List ℕ) {byte left : ℕ}
    → i < 64
    → (d * 64 + i) / 16 % 256 ≡ byte
    → (d * 64 + i) % 16 ≡ left
    → decode_loop (char_at i ∷ rest) 6 d ≡ append_to (byte ∷ []) (decode_loop rest 4 left)
char6 i d rest h e f = loop_char i 6 d rest h ∙ rw (e, f)

char4 :
    (i d : ℕ) (rest : List ℕ) {byte left : ℕ}
    → i < 64
    → (d * 64 + i) / 4 % 256 ≡ byte
    → (d * 64 + i) % 4 ≡ left
    → decode_loop (char_at i ∷ rest) 4 d ≡ append_to (byte ∷ []) (decode_loop rest 2 left)
char4 i d rest h e f = loop_char i 4 d rest h ∙ rw (e, f)

char2 :
    (i d : ℕ) (rest : List ℕ) {byte : ℕ}
    → i < 64
    → (d * 64 + i) / 1 % 256 ≡ byte
    → decode_loop (char_at i ∷ rest) 2 d ≡ append_to (byte ∷ []) (decode_loop rest 0 0)
char2 i d rest h e =
    let nil : (d * 64 + i) % 1 ≡ 0 = omega arith in loop_char i 2 d rest h ∙ rw (e, nil)

pad4 :
    (d : ℕ) (rest : List ℕ)
    → decode_loop (char_at 64 ∷ rest) 4 d ≡ decode_loop rest 2 ((d * 64 + 0) % 4)
unfolding decode_loop char_at binary_at
pad4 d rest = append_nothing _

pad2 :
    (d : ℕ) (rest : List ℕ)
    → decode_loop (char_at 64 ∷ rest) 2 d ≡ decode_loop rest 0 ((d * 64 + 0) % 1)
unfolding decode_loop char_at binary_at
pad2 d rest = append_nothing _

loop_end : (d : ℕ) → decode_loop [] 0 d ≡ some []
unfolding decode_loop
loop_end d = refl

decode_loop-encode :
    (bytes : List ℕ) → All IsByte bytes → decode_loop (encode bytes) 0 0 ≡ some bytes
unfolding encode
decode_loop-encode [] h = loop_end 0
decode_loop-encode (a ∷ []) h =
    char0 (a / 4) _ (omega (arith, h.0))
    ∙ char6 (a % 4 * 16) (a / 4) _ {left = 0} (omega arith) (omega (arith, h.0)) (omega arith)
    ∙ ap (append_to (a ∷ [])) (pad4 0 _ ∙ pad2 _ [] ∙ loop_end _)
decode_loop-encode (a ∷ b ∷ []) h =
    char0 (a / 4) _ (omega (arith, h.0))
    ∙ char6 (a % 4 * 16 + b / 16) (a / 4) _ {left = b / 16} (omega (arith, h.1.0))
        (omega (arith, h.0, h.1.0)) (omega (arith, h.1.0))
    ∙ ap (append_to (a ∷ [])) (
        char4 (b % 16 * 4) (b / 16) _ {left = 0} (omega arith) (omega (arith, h.1.0)) (omega arith)
        ∙ ap (append_to (b ∷ [])) (pad2 0 [] ∙ loop_end _))
decode_loop-encode (a ∷ b ∷ c ∷ rest) h =
    char0 (a / 4) _ (omega (arith, h.0))
    ∙ char6 (a % 4 * 16 + b / 16) (a / 4) _ {left = b / 16} (omega (arith, h.1.0))
        (omega (arith, h.0, h.1.0)) (omega (arith, h.1.0))
    ∙ ap (append_to (a ∷ [])) (
        char4 (b % 16 * 4 + c / 64) (b / 16) _ {left = c / 64} (omega (arith, h.1.1.0))
          (omega (arith, h.1.0, h.1.1.0)) (omega (arith, h.1.1.0))
        ∙ ap (append_to (b ∷ [])) (
            char2 (c % 64) (c / 64) _ (omega arith) (omega (arith, h.1.1.0))
            ∙ ap (append_to (c ∷ [])) (decode_loop-encode rest h.1.1.1)))

-- the characters before the padding
abbrev unpadded : ℕ → Option ℕ → ℕ
unpadded len none = len
unpadded len (some i) = i

-- two for the byte that is left, three for two
abbrev payload : List ℕ → ℕ
payload [] = 0
payload (a ∷ []) = 2
payload (a ∷ b ∷ []) = 3
payload (a ∷ b ∷ c ∷ rest) = suc (suc (suc (suc (payload rest))))

-- `n` characters stand before the padding, or before the end if there is none.
record Before (l : List ℕ) (n : ℕ) : Type 0 where
  counted : unpadded (length l) (index_of_pad l) ≡ n

Before-char : {l : List ℕ} {n : ℕ} (i : ℕ) → i < 64 → Before l n → Before (char_at i ∷ l) (suc n)
Before-char {l} {n} i h b = record {
  counted = rw (not_pad i h) (go (index_of_pad l) ∙ ap suc b.counted);
}
  where
    go : (o : Option ℕ) → unpadded (suc (length l)) (Option.map suc o) ≡ suc (unpadded (length l) o)
    go none = refl
    go (some j) = refl

Before-pad : (l : List ℕ) → Before (char_at 64 ∷ l) 0
unfolding char_at
Before-pad l = record { counted = refl }

Before-encode : (bytes : List ℕ) → All IsByte bytes → Before (encode bytes) (payload bytes)
unfolding encode
Before-encode [] h = record { counted = refl }
Before-encode (a ∷ []) h =
    Before-char (a / 4) (omega (arith, h.0))
      (Before-char (a % 4 * 16) (omega arith) (Before-pad (char_at 64 ∷ [])))
Before-encode (a ∷ b ∷ []) h = Before-char (a / 4) (omega (arith, h.0)) (
    Before-char (a % 4 * 16 + b / 16) (omega (arith, h.1.0))
      (Before-char (b % 16 * 4) (omega arith) (Before-pad [])))
Before-encode (a ∷ b ∷ c ∷ rest) h = Before-char (a / 4) (omega (arith, h.0)) (
    Before-char (a % 4 * 16 + b / 16) (omega (arith, h.1.0)) (
      Before-char (b % 16 * 4 + c / 64) (omega (arith, h.1.1.0))
        (Before-char (c % 64) (omega arith) (Before-encode rest h.1.1.1))))

result_length-payload : (bytes : List ℕ) → result_length (payload bytes) ≡ length bytes
result_length-payload [] = refl
result_length-payload (a ∷ []) = refl
result_length-payload (a ∷ b ∷ []) = refl
result_length-payload (a ∷ b ∷ c ∷ rest) = omega (arith, result_length-payload rest)

whole_length : (len : ℕ) (o : Option ℕ) → data_length len 0 o ≡ unpadded len o
whole_length len none = omega arith
whole_length len (some i) = ground arith

-- `decode` of what `encode` makes of any bytes is these bytes: no exception, none missing, and the
-- array has no further elements.
pub decode-encode :
    (bytes : List ℕ) → All IsByte bytes → decode (encode bytes) 0 ≡ some (map (λ b. some b) bytes)
unfolding decode
decode-encode bytes h =
    let n : result_length (data_length (length (encode bytes)) 0 (index_of_pad (encode bytes)))
        ≡ length bytes =
      ap result_length
        (whole_length _ (index_of_pad (encode bytes)) ∙ (Before-encode bytes h).counted)
      ∙ result_length-payload bytes in
    let from_start : ltb (length (encode bytes)) 0 ≡ false = ground arith in
    let full : length bytes - length bytes ≡ 0 = omega arith in
    rw (from_start, n, decode_loop-encode bytes h)
      (rw full (ap (λ t. some t) (append-nil (map (λ b. some b) bytes))))
