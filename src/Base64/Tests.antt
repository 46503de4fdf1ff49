-- ===== src/Base64/Tests.antt =====
-- core/base64.js at concrete inputs.
use proxmox_self_service_por.Prelude.{◌≡◌, refl, some, none, [], ◌∷◌, arith}
use proxmox_self_service_por.Base64.{encode, decode, char_at, binary_at, decode_loop}
use proxmox_self_service_por.Base64.RoundTrip.{decode-encode}

-- "Hello" is "SGVsbG8="
hello : encode (72 ∷ 101 ∷ 108 ∷ 108 ∷ 111 ∷ []) ≡ 83 ∷ 71 ∷ 86 ∷ 115 ∷ 98 ∷ 71 ∷ 56 ∷ 61 ∷ []
unfolding encode char_at
hello = refl

-- a text of one character is refused
too_short : decode (83 ∷ []) 0 ≡ none
unfolding decode decode_loop binary_at
too_short = refl

decode-encode_example :
    decode (encode (0 ∷ 255 ∷ 16 ∷ 7 ∷ [])) 0 ≡ some (some 0 ∷ some 255 ∷ some 16 ∷ some 7 ∷ [])
decode-encode_example =
    decode-encode (0 ∷ 255 ∷ 16 ∷ 7 ∷ [])
      (omega arith, (omega arith, (omega arith, (omega arith, tt))))
