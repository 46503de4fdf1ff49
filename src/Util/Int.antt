-- ===== src/Util/Int.antt =====
-- core/util/int.js, and the shift that websock.js uses, on integers as JavaScript sees them.
use proxmox_self_service_por.Prelude.{ℕ, ◌-◌, ◌*◌, ◌%◌, ◌^◌, ltb, if◌then◌else◌}
use proxmox_self_service_por.Prelude.Int.{ℤ, pos, negsuc}

abbrev pub u32_mod : ℕ
u32_mod = 2 ^ 32

-- `ToUint32`: the residue modulo 2 ^ 32. `negsuc n` is -(n + 1).
unfoldable pub to_unsigned32bit : ℤ → ℕ
to_unsigned32bit (pos n) = n % u32_mod
to_unsigned32bit (negsuc n) = u32_mod - 1 - n % u32_mod

-- the signed number that a 32-bit pattern stands for
abbrev pub signed32 : ℕ → ℤ
signed32 w = if ltb w (2 ^ 31) then pos w else negsuc (u32_mod - 1 - w)

-- `ToInt32`
unfoldable pub to_signed32bit : ℤ → ℤ
unfolding to_unsigned32bit
to_signed32bit z = signed32 (to_unsigned32bit z)

-- `a << k`: the low 32 bits of the product, read as a signed number
unfoldable pub shift_left : ℕ → ℕ → ℤ
shift_left a k = signed32 (a * 2 ^ k % u32_mod)
