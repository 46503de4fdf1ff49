-- ===== src/Display/Canvas.antt =====
-- What core/display.js uses of the browser's canvases: a plane of pixels, painted in rectangles. The
-- planes are not bounded; the viewport lies in the part that a canvas has.
use proxmox_self_service_por.Prelude.{
  ℕ, ◌+◌, ◌*◌, ◌≡◌, refl, Bool, true, false, ◌&&◌, ◌||◌, ◌==◌, List, [], ◌∷◌, ◌++◌, get_or,
  if◌then◌else◌,
}
use proxmox_self_service_por.Prelude.Int.{ℤ, pos_part, ◌+ℤ◌, ◌-ℤ◌, ltb_ℤ}

-- Red, green, blue, and how opaque. A pixel that was never drawn is `[]`. One that is mixed has such
-- four numbers for each layer that is drawn on another, the upper ones first.
abbrev pub Pixel : Type 0
Pixel = List ℕ

abbrev pub Plane : Type 0
Plane = ℤ → ℤ → Pixel

pub record Rect : Type 0 where
  pub x : ℤ
  pub y : ℤ
  pub w : ℤ
  pub h : ℤ

-- `lo <= i < hi`
abbrev pub between : ℤ → ℤ → ℤ → Bool
between lo hi i = if ltb_ℤ i lo then Bool.false else ltb_ℤ i hi

abbrev pub inside : Rect → ℤ → ℤ → Bool
inside r i j = between r.x (r.x +ℤ r.w) i && between r.y (r.y +ℤ r.h) j

-- Some layer is opaque: it hides what is below.
unfoldable pub is_opaque : Pixel → Bool
is_opaque (r ∷ g ∷ b ∷ a ∷ below) = a == 255 || is_opaque below
is_opaque _ = false

-- Nothing is to be seen of the pixel.
unfoldable pub is_clear : Pixel → Bool
is_clear (r ∷ g ∷ b ∷ a ∷ below) = a == 0 && is_clear below
is_clear _ = true

-- A pixel drawn on another, as `drawImage` does ("source-over").
unfoldable pub over : Pixel → Pixel → Pixel
over top under = if is_opaque top then top else if is_clear top then under else top ++ under

pub over_opaque : (top under : Pixel) → is_opaque top ≡ true → over top under ≡ top
unfolding over
over_opaque top under h = rw h refl

abbrev pub drawn : Plane → Plane → Plane
drawn top under i j = over (top i j) (under i j)

-- The pixels of a rectangle are replaced.
abbrev pub paint : Rect → Plane → Plane → Plane
paint r new old i j = if inside r i j then new i j else old i j

-- the plane moved by (`dx`, `dy`)
abbrev pub moved : ℤ → ℤ → Plane → Plane
moved dx dy p i j = p (i -ℤ dx) (j -ℤ dy)

-- The image data of a blit: four bytes a pixel, `w` pixels a row. The rows begin at (`x`, `y`).
abbrev pub image_data : ℤ → ℤ → ℤ → List ℕ → Plane
image_data x y w bytes i j =
    let k = (pos_part (j -ℤ y) * pos_part w + pos_part (i -ℤ x)) * 4 in
    get_or bytes k 0 ∷ get_or bytes (k + 1) 0 ∷ get_or bytes (k + 2) 0 ∷ get_or bytes (k + 3) 0 ∷ []
