-- ===== src/Decoders/Hextile/Read.antt =====
-- The bytes of one tile of core/decoders/hextile.js: how many the decoder waits for, and how it reads
-- them. The reads stand in the order of the source; what is done with them is in `Paint`.
use proxmox_self_service_por.Prelude.{
  ℕ, zero, suc, ◌+◌, ◌*◌, ◌/◌, ◌%◌, Bool, true, false, Option, none, some, List, [], ◌∷◌, ◌==◌,
  if◌then◌else◌,
}
use proxmox_self_service_por.ByteQueue.{Reader, pure, ◌>>=◌, ◌>>◌, shift8, shift_bytes}

-- `subencoding & bit`, for a power of two
abbrev pub has_bit : ℕ → ℕ → Bool
has_bit subencoding bit = subencoding / bit % 2 == 1

abbrev pub is_raw : ℕ → Bool
is_raw subencoding = has_bit subencoding 1

abbrev pub has_background : ℕ → Bool
has_background subencoding = has_bit subencoding 2

abbrev pub has_foreground : ℕ → Bool
has_foreground subencoding = has_bit subencoding 4

abbrev pub any_subrects : ℕ → Bool
any_subrects subencoding = has_bit subencoding 8

abbrev pub subrects_coloured : ℕ → Bool
subrects_coloured subencoding = has_bit subencoding 16

pub record Subtile : Type 0 where
  pub color : Option (List ℕ)
  pub xy : ℕ
  pub wh : ℕ

-- What a tile holds: nothing, its pixels, or new colours and its sub-rectangles.
pub data Tile : Type 0 where
  blank : Tile
  raw_pixels : List ℕ → Tile
  painted : Option (List ℕ) → Option (List ℕ) → List Subtile → Tile

-- `subencoding & bit ? sock.rQshiftBytes(4) : nothing`
abbrev pub read_color : Bool → Reader (Option (List ℕ))
read_color true = do color ← shift_bytes 4; pure (some color)
read_color false = pure none

unfoldable pub read_subtile : Bool → Reader Subtile
read_subtile coloured = do
  color ← read_color coloured
  xy ← shift8
  wh ← shift8
  pure (record { color = color; xy = xy; wh = wh })

-- `for (let s = 0; s < subrects; s++)`
unfoldable pub read_subtiles : Bool → ℕ → Reader (List Subtile)
read_subtiles coloured zero = pure []
read_subtiles coloured (suc n) = do
  s ← read_subtile coloured
  rest ← (λ q. read_subtiles coloured n q)
  pure (s ∷ rest)

unfoldable pub read_colors : ℕ → Reader (Option (List ℕ) × Option (List ℕ))
read_colors subencoding = do
  shift8
  background ← read_color (has_background subencoding)
  foreground ← read_color (has_foreground subencoding)
  pure (background, foreground)

unfoldable pub read_painted : ℕ → Reader Tile
read_painted subencoding = do
  colors ← read_colors subencoding
  subrects ← shift8
  subtiles ← read_subtiles (subrects_coloured subencoding) subrects
  pure (painted colors.0 colors.1 subtiles)

unfoldable pub read_flat : ℕ → Reader Tile
read_flat subencoding = do colors ← read_colors subencoding; pure (painted colors.0 colors.1 [])

unfoldable pub read_raw : ℕ → ℕ → Reader Tile
read_raw tw th = do shift8; pixels ← shift_bytes (tw * th * 4); pure (raw_pixels pixels)

unfoldable pub read_blank : Reader Tile
read_blank = do shift8; pure blank

-- the reads from `sock.rQshift8()` to the end of the round
unfoldable pub read_tile : ℕ → ℕ → ℕ → Reader Tile
read_tile subencoding tw th =
    if subencoding == 0
    then read_blank
    else if is_raw subencoding
    then read_raw tw th
    else if any_subrects subencoding
    then read_painted subencoding
    else read_flat subencoding

-- `bytes` before the sub-rectangles are counted in
abbrev pub colors_size : ℕ → ℕ
colors_size subencoding =
    1
    + (if has_background subencoding then 4 else 0)
    + (if has_foreground subencoding then 4 else 0)

-- the bytes of a sub-rectangle
abbrev pub subtile_size : ℕ → ℕ
subtile_size subencoding = if subrects_coloured subencoding then 4 + 2 else 2

-- `.at(-1)`
abbrev pub last_of : List ℕ → Option ℕ
last_of [] = none
last_of (x ∷ []) = some x
last_of (x ∷ y ∷ xs) = last_of (y ∷ xs)
