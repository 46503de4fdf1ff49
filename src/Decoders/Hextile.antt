-- ===== src/Decoders/Hextile.antt =====
-- core/decoders/hextile.js: `decodeRect`. `Read` has the reads of one tile, `Paint` the state and the
-- painting of the tile buffer. `HextileLaws` proves that a rectangle may come in pieces.
pub mod Read
pub mod Paint
use Prim.Native.Nat.{min}
use proxmox_self_service_por.Prelude.{
  ℕ, zero, suc, ◌+◌, ◌-◌, ◌*◌, ◌/◌, ◌%◌, Bool, true, false, ◌&&◌, Option, none, some, List, [], ◌∷◌,
  ltb, ◌==◌, if◌then◌else◌, length,
}
use proxmox_self_service_por.ByteQueue.{wait, peek8, peek_bytes}
use proxmox_self_service_por.Decoders.Result.{
  Draw, Result, returned, thrown, underrun, emit, after_read,
}
use Read.{Tile, is_raw, any_subrects, read_tile, colors_size, subtile_size, last_of}
use Paint.{State, apply_tile}

-- `sock.rQpeekBytes(bytes).at(-1)`
abbrev pub last_peeked : ℕ → List ℕ → Option ℕ
last_peeked bytes q = elim (peek_bytes bytes q) [ none ↦ none | some front ↦ last_of front ]

-- The tile is at (`tx`, `ty`) and `tw` by `th` in size; `next` is the rest of the loop.
module _ (tx ty tw th : ℕ) (next : State → List ℕ → Result State) where
  -- what follows the reads and the painting
  abbrev pub after_tile : ℕ → ℕ → Option (State × List Draw) → List ℕ → Result State
  after_tile subencoding tiles none q = thrown
  after_tile subencoding tiles (some (s, draws)) q =
      emit draws (next (record s { last_subencoding = subencoding; tiles = tiles }) q)

  -- the end of the round, after its reads
  unfoldable pub end_round : ℕ → ℕ → State → Tile → List ℕ → Result State
  end_round subencoding tiles s tile q =
      after_tile subencoding tiles (apply_tile tx ty tw th tile s) q

  -- once `bytes` is known
  abbrev pub read_round : ℕ → ℕ → State → List ℕ → ℕ → Result State
  read_round subencoding tiles s q bytes =
      if wait q bytes
      then returned false s q []
      else after_read (read_tile subencoding tw th q) (end_round subencoding tiles s)

  -- once the number of sub-rectangles is peeked
  abbrev pub sized_round : ℕ → ℕ → State → List ℕ → ℕ → Option ℕ → Result State
  sized_round subencoding tiles s q bytes none = underrun
  sized_round subencoding tiles s q bytes (some subrects) =
      read_round subencoding tiles s q (bytes + subrects * subtile_size subencoding)

  -- the wait for the number of sub-rectangles, which is the last byte peeked
  abbrev pub counted_round : ℕ → ℕ → State → List ℕ → Result State
  counted_round subencoding tiles s q =
      let bytes = colors_size subencoding + 1 in
      if wait q bytes
      then returned false s q []
      else sized_round subencoding tiles s q bytes (last_peeked bytes q)

  -- from the subencoding on
  abbrev pub known_round : ℕ → ℕ → State → List ℕ → Result State
  known_round subencoding tiles s q =
      if ltb 30 subencoding
      then thrown
      else if is_raw subencoding
      then read_round subencoding tiles s q (1 + tw * th * 4)
      else if any_subrects subencoding
      then counted_round subencoding tiles s q
      else read_round subencoding tiles s q (colors_size subencoding)

  unfoldable pub round : ℕ → State → List ℕ → Result State
  round tiles s q =
      if wait q 1
      then returned false s q []
      else elim (peek8 q) [ none ↦ underrun | some subencoding ↦ known_round subencoding tiles s q ]

module _ (x y width height : ℕ) where
  -- the tile's place, when `tiles` of them are left
  abbrev pub tile_left : ℕ → State → ℕ
  tile_left tiles s = x + (s.total_tiles - tiles) % s.tiles_x * 16

  abbrev pub tile_top : ℕ → State → ℕ
  tile_top tiles s = y + (s.total_tiles - tiles) / s.tiles_x * 16

  -- `while (this._tiles > 0)`; the first argument is `_tiles`
  unfoldable pub hextile_loop : ℕ → State → List ℕ → Result State
  hextile_loop zero s q = returned true s q []
  hextile_loop (suc tiles) s q =
      let tx = tile_left (suc tiles) s in
      let ty = tile_top (suc tiles) s in
      round tx ty (min 16 (x + width - tx)) (min 16 (y + height - ty))
        (λ s' q'. hextile_loop tiles s' q') tiles s q

  -- the start of a rectangle
  abbrev pub count_tiles : State → State
  count_tiles s =
      let tiles_x = (width + 15) / 16 in
      let tiles_y = (height + 15) / 16 in
      record s {
        tiles_x = tiles_x;
        tiles_y = tiles_y;
        total_tiles = tiles_x * tiles_y;
        tiles = tiles_x * tiles_y;
      }

  unfoldable pub decode_rect : State → List ℕ → Result State
  unfolding hextile_loop
  decode_rect s q = let s' = if s.tiles == 0 then count_tiles s else s in hextile_loop s'.tiles s' q
