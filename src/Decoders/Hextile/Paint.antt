-- ===== src/Decoders/Hextile/Paint.antt =====
-- The state of core/decoders/hextile.js and what it does with a tile that was read: `_startTile`,
-- `_subTile`, `_finishTile`.
use proxmox_self_service_por.Prelude.{
  ℕ, zero, suc, ◌+◌, ◌*◌, ◌/◌, ◌%◌, Option, none, some, List, [], ◌∷◌, if◌then◌else◌, get_or,
}
use proxmox_self_service_por.Js.Bytes.{Uint8Array, new_array, store, slice}
use proxmox_self_service_por.Decoders.Result.{Draw, fill_rect, blit_image}
use proxmox_self_service_por.Decoders.Raw.{make_opaque}
use proxmox_self_service_por.Decoders.Hextile.Read.{
  Tile, blank, raw_pixels, painted, Subtile, is_raw,
}

-- The fields; a colour is absent until one was sent.
pub record State : Type 0 where
  pub tiles : ℕ
  pub tiles_x : ℕ
  pub tiles_y : ℕ
  pub total_tiles : ℕ
  pub last_subencoding : ℕ
  pub background : Option (List ℕ)
  pub foreground : Option (List ℕ)
  pub tile_x : ℕ
  pub tile_y : ℕ
  pub tile_w : ℕ
  pub tile_h : ℕ
  pub tile_buffer : Uint8Array

-- the constructor
unfoldable pub new_decoder : State
new_decoder = record {
  tiles = 0;
  tiles_x = 0;
  tiles_y = 0;
  total_tiles = 0;
  last_subencoding = 0;
  background = none;
  foreground = none;
  tile_x = 0;
  tile_y = 0;
  tile_w = 0;
  tile_h = 0;
  tile_buffer = new_array (16 * 16 * 4);
}

-- the four stores at `data[p]`; a store past the end does nothing
abbrev pub write_pixel : List ℕ → ℕ → Uint8Array → Uint8Array
write_pixel color p a =
    store
      (store (store (store a p (get_or color 0 0)) (p + 1) (get_or color 1 0)) (p + 2)
        (get_or color 2 0))
      (p + 3) 255

-- `n` pixels from pixel `i` on
unfoldable pub fill_pixels : List ℕ → ℕ → ℕ → Uint8Array → Uint8Array
fill_pixels color zero i a = a
fill_pixels color (suc n) i a = fill_pixels color n (i + 1) (write_pixel color (i * 4) a)

unfoldable pub start_tile : ℕ → ℕ → ℕ → ℕ → List ℕ → State → State
start_tile x y width height color s = record s {
  tile_x = x;
  tile_y = y;
  tile_w = width;
  tile_h = height;
  tile_buffer = fill_pixels color (width * height) 0 s.tile_buffer;
}

-- `h` rows of `w` pixels from (`x`, `y`) on
unfoldable pub sub_rows : List ℕ → ℕ → ℕ → ℕ → ℕ → ℕ → Uint8Array → Uint8Array
sub_rows color width x y w zero a = a
sub_rows color width x y w (suc h) a =
    sub_rows color width x (y + 1) w h (fill_pixels color w (x + y * width) a)

unfoldable pub sub_tile : ℕ → ℕ → ℕ → ℕ → List ℕ → State → State
sub_tile x y w h color s = record s { tile_buffer = sub_rows color s.tile_w x y w h s.tile_buffer }

-- The display takes the first `width * height * 4` bytes of the buffer.
unfoldable pub finish_tile : State → Draw
finish_tile s =
    blit_image s.tile_x s.tile_y s.tile_w s.tile_h (slice s.tile_buffer 0 (s.tile_w * s.tile_h * 4))

abbrev pub keep_or : {A : Type 0} → Option A → Option A → Option A
keep_or (some a) old = some a
keep_or none old = old

-- The sub-rectangles in order; `none` is the TypeError of a foreground that was never sent.
unfoldable pub paint_subtiles : List Subtile → State → Option State
paint_subtiles [] s = some s
paint_subtiles (t ∷ ts) s = elim (keep_or t.color s.foreground) [
  | none ↦ none
  | some color ↦
      paint_subtiles ts (sub_tile (t.xy / 16) (t.xy % 16) (t.wh / 16 + 1) (t.wh % 16 + 1) color s)
]

-- What a round does after its reads; `none` is a TypeError.
unfoldable pub apply_tile : ℕ → ℕ → ℕ → ℕ → Tile → State → Option (State × List Draw)
apply_tile tx ty tw th blank s =
    some (s, (if is_raw s.last_subencoding then [] else fill_rect tx ty tw th s.background ∷ []))
apply_tile tx ty tw th (raw_pixels data₀) s =
    some (s, blit_image tx ty tw th (make_opaque data₀) ∷ [])
apply_tile tx ty tw th (painted background foreground subtiles) s =
    let s₁ = record s {
      background = keep_or background s.background;
      foreground = keep_or foreground s.foreground;
    } in
    elim s₁.background [
      | none ↦ none
      | some color ↦ elim (paint_subtiles subtiles (start_tile tx ty tw th color s₁)) [
        | none ↦ none
        | some s₂ ↦ some (s₂, finish_tile s₂ ∷ [])
      ]
    ]
