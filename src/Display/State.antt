-- ===== src/Display/State.antt =====
-- The fields of core/display.js, `_damage` and `flip`.
use proxmox_self_service_por.Prelude.{Bool, ◌&&◌, if◌then◌else◌}
use proxmox_self_service_por.Prelude.Int.{ℤ, pos, ◌+ℤ◌, ◌-ℤ◌, ltb_ℤ}
use proxmox_self_service_por.Display.Canvas.{Plane, Rect, paint, moved, drawn}

pub record Bounds : Type 0 where
  pub left : ℤ
  pub top : ℤ
  pub right : ℤ
  pub bottom : ℤ

-- The fields that say what is seen; `back` and `shown` are the contents of the hidden and of the
-- visible canvas.
pub record View : Type 0 where
  pub fb_width : ℤ
  pub fb_height : ℤ
  pub viewport_loc : Rect
  pub clip_viewport : Bool
  pub damage_bounds : Bounds
  pub back : Plane
  pub shown : Plane

abbrev pub min_ℤ : ℤ → ℤ → ℤ
min_ℤ a b = if ltb_ℤ a b then a else b

abbrev pub max_ℤ : ℤ → ℤ → ℤ
max_ℤ a b = if ltb_ℤ b a then a else b

-- `_damage`
abbrev pub damage_by : Rect → Bounds → Bounds
damage_by r b = record {
  left = if ltb_ℤ r.x b.left then r.x else b.left;
  top = if ltb_ℤ r.y b.top then r.y else b.top;
  right = if ltb_ℤ b.right (r.x +ℤ r.w) then r.x +ℤ r.w else b.right;
  bottom = if ltb_ℤ b.bottom (r.y +ℤ r.h) then r.y +ℤ r.h else b.bottom;
}

unfoldable pub damage : Rect → View → View
damage r d = record d { damage_bounds = damage_by r d.damage_bounds }

-- One coordinate of `flip`: where the damage begins in the buffer, its length, and where it begins
-- in the viewport, which is at `loc` and `size` long.
pub record Span : Type 0 where
  pub source : ℤ
  pub len : ℤ
  pub dest : ℤ

-- `if (vx < 0)`
abbrev pub cut_front : Span → Span
cut_front s =
    if ltb_ℤ s.dest (pos 0)
    then record { source = s.source -ℤ s.dest; len = s.len +ℤ s.dest; dest = pos 0 }
    else s

-- `if ((vx + w) > this._viewportLoc.w)`
abbrev pub cut_end : ℤ → Span → Span
cut_end size s = if ltb_ℤ size (s.dest +ℤ s.len) then record s { len = size -ℤ s.dest } else s

unfoldable pub flip_span : ℤ → ℤ → ℤ → ℤ → Span
flip_span lo hi loc size =
    cut_end size (cut_front (record { source = lo; len = hi -ℤ lo; dest = lo -ℤ loc }))

abbrev pub no_damage : Bounds
no_damage = record { left = pos 65535; top = pos 65535; right = pos 0; bottom = pos 0 }

-- `drawImage` of the buffer's part on the visible canvas, whose pixels are seen where the buffer's are
-- not opaque
abbrev pub show : Span → Span → Plane → Plane → Plane
show h v back shown =
    if ltb_ℤ (pos 0) h.len && ltb_ℤ (pos 0) v.len
    then paint (record { x = h.dest; y = v.dest; w = h.len; h = v.len })
        (drawn (moved (h.dest -ℤ h.source) (v.dest -ℤ v.source) back) shown) shown
    else shown

-- `flip` when it is not queued
unfoldable pub flip_now : View → View
flip_now d =
    let b = d.damage_bounds in
    let vp = d.viewport_loc in
    record d {
      shown =
          show (flip_span b.left b.right vp.x vp.w) (flip_span b.top b.bottom vp.y vp.h) d.back
            d.shown;
      damage_bounds = no_damage;
    }
