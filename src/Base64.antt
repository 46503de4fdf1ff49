-- ===== src/Base64.antt =====
-- core/base64.js. A text is the list of its character codes.
mod Tests
pub mod RoundTrip
use mathlib.Core.Option
use proxmox_self_service_por.Prelude.{
  ℕ, zero, suc, ◌+◌, ◌-◌, ◌*◌, ◌/◌, ◌%◌, ◌^◌, Bool, true, false, Option, none, some, List, [], ◌∷◌,
  ◌++◌, ltb, ◌==◌, length, map, drop, replicate, get_or, if◌then◌else◌,
}

-- `toBase64Table`
abbrev pub to_base64_table : List ℕ
to_base64_table =
    65 ∷ 66 ∷ 67 ∷ 68 ∷ 69 ∷ 70 ∷ 71 ∷ 72 ∷ 73 ∷ 74 ∷ 75 ∷ 76 ∷ 77 ∷ 78 ∷ 79 ∷ 80 ∷ 81 ∷ 82 ∷ 83
    ∷ 84 ∷ 85 ∷ 86 ∷ 87 ∷ 88 ∷ 89 ∷ 90 ∷ 97 ∷ 98 ∷ 99 ∷ 100 ∷ 101 ∷ 102 ∷ 103 ∷ 104 ∷ 105 ∷ 106
    ∷ 107 ∷ 108 ∷ 109 ∷ 110 ∷ 111 ∷ 112 ∷ 113 ∷ 114 ∷ 115 ∷ 116 ∷ 117 ∷ 118 ∷ 119 ∷ 120 ∷ 121 ∷ 122
    ∷ 48 ∷ 49 ∷ 50 ∷ 51 ∷ 52 ∷ 53 ∷ 54 ∷ 55 ∷ 56 ∷ 57 ∷ 43 ∷ 47 ∷ 61 ∷ []

-- `base64Pad`
abbrev pub base64_pad : ℕ
base64_pad = 61

unfoldable pub char_at : ℕ → ℕ
char_at i = get_or to_base64_table i 0

-- every three bytes, and the remaining one or two
unfoldable pub encode : List ℕ → List ℕ
encode [] = []
encode (a ∷ []) = char_at (a / 4) ∷ char_at (a % 4 * 16) ∷ char_at 64 ∷ char_at 64 ∷ []
encode (a ∷ b ∷ []) =
    char_at (a / 4) ∷ char_at (a % 4 * 16 + b / 16) ∷ char_at (b % 16 * 4) ∷ char_at 64 ∷ []
encode (a ∷ b ∷ c ∷ rest) =
    char_at (a / 4)
    ∷ char_at (a % 4 * 16 + b / 16)
    ∷ char_at (b % 16 * 4 + c / 64)
    ∷ char_at (c % 64)
    ∷ encode rest

-- a row of `toBinaryTable` of numbers that count up
abbrev counting : ℕ → ℕ → List (Option ℕ)
counting i zero = []
counting i (suc n) = some i ∷ counting (suc i) n

-- `toBinaryTable`; `none` is -1
abbrev pub to_binary_table : List (Option ℕ)
to_binary_table =
    replicate 43 none
    ++ (some 62 ∷ [])
    ++ replicate 3 none
    ++ (some 63 ∷ [])
    ++ counting 52 10
    ++ replicate 3 none
    ++ (some 0 ∷ [])
    ++ replicate 3 none
    ++ counting 0 26
    ++ replicate 6 none
    ++ counting 26 26
    ++ replicate 5 none

unfoldable pub binary_at : ℕ → Option ℕ
binary_at code = get_or to_binary_table code none

-- `leftbits`, `leftdata`, and the bytes that a round appends
pub record Collected : Type 0 where
  pub left_bits : ℕ
  pub left_data : ℕ
  pub appended : List ℕ

-- `leftdata` and `leftbits` have the new character
abbrev pub collect : Bool → ℕ → ℕ → Collected
collect padding bits data₀ =
    if ltb bits 8 then record { left_bits = bits; left_data = data₀; appended = [] } else record {
      left_bits = bits - 8;
      left_data = data₀ % 2 ^ (bits - 8);
      appended = if padding then [] else data₀ / 2 ^ (bits - 8) % 256 ∷ [];
    }

abbrev pub take_char : Bool → ℕ → ℕ → Option ℕ → Collected
take_char padding bits data₀ none = record { left_bits = bits; left_data = data₀; appended = [] }
take_char padding bits data₀ (some c) = collect padding (bits + 6) (data₀ * 64 + c)

abbrev pub append_to : List ℕ → Option (List ℕ) → Option (List ℕ)
append_to out none = none
append_to out (some rest) = some (out ++ rest)

-- The loop of `decode`, with what it appends; `none` if bits are left at the end.
unfoldable pub decode_loop : List ℕ → ℕ → ℕ → Option (List ℕ)
decode_loop [] bits data₀ = if bits == 0 then some [] else none
decode_loop (ch ∷ chars) bits data₀ =
    let r = take_char (ch == base64_pad) bits data₀ (binary_at (ch % 128)) in
    append_to r.appended (decode_loop chars r.left_bits r.left_data)

-- `data.indexOf('=')`
abbrev pub index_of_pad : List ℕ → Option ℕ
index_of_pad [] = none
index_of_pad (ch ∷ chars) =
    let rest = index_of_pad chars in if ch == base64_pad then some 0 else Option.map suc rest

-- `dataLength`
abbrev pub data_length : ℕ → ℕ → Option ℕ → ℕ
data_length len offset none = len - offset
data_length len offset (some i) = if ltb i offset then len - offset else i - offset

-- `Math.floor((dataLength % 4) / 1.5)` is two thirds, rounded down.
abbrev pub result_length : ℕ → ℕ
result_length n = n / 4 * 3 + n % 4 * 2 / 3

-- the elements of the array that were never assigned
abbrev pub with_holes : ℕ → Option (List ℕ) → Option (List (Option ℕ))
with_holes size none = none
with_holes size (some out) = some (map (λ b. some b) out ++ replicate (size - length out) none)

-- `none` is an exception: bits that are left, or an offset past the end, which makes the array's
-- length negative.
unfoldable pub decode : List ℕ → ℕ → Option (List (Option ℕ))
decode data₀ offset =
    if ltb (length data₀) offset
    then none
    else with_holes (result_length (data_length (length data₀) offset (index_of_pad data₀)))
        (decode_loop (drop offset data₀) 0 0)
