-- ===== src/Display/Viewport.antt =====
-- The viewport of core/display.js: `viewportChangePos`, `viewportChangeSize`, `clipViewport`, `resize`.
-- A scale and the size of the canvas on the page are left out.
use proxmox_self_service_por.Prelude.{Bool, false, ◌&&◌, none, [], if◌then◌else◌}
use proxmox_self_service_por.Prelude.Int.{ℤ, pos, ◌+ℤ◌, ◌-ℤ◌, ltb_ℤ}
use proxmox_self_service_por.Display.Canvas.{Plane, paint}
use proxmox_self_service_por.Display.State.{View, damage, min_ℤ}
use proxmox_self_service_por.Display.Queue.{Display, same_ℤ}
use proxmox_self_service_por.Display.Draw.{on_view, flip_display}

abbrev pub neg_ℤ : ℤ → ℤ
neg_ℤ a = pos 0 -ℤ a

-- the first test on `deltaX`, and on `deltaY`
abbrev pub low_x : ℤ → ℤ → ℤ
low_x x delta = if ltb_ℤ delta (pos 0) && ltb_ℤ (x +ℤ delta) (pos 0) then neg_ℤ x else delta

abbrev pub low_y : ℤ → ℤ → ℤ
low_y y delta = if ltb_ℤ (y +ℤ delta) (pos 0) then neg_ℤ y else delta

-- the second one; `last` is the last coordinate of the viewport
abbrev pub high : ℤ → ℤ → ℤ → ℤ
high fb last delta =
    if ltb_ℤ (last +ℤ delta) fb then delta else delta -ℤ (last +ℤ delta -ℤ fb +ℤ pos 1)

abbrev pub delta_x : View → ℤ → ℤ
delta_x v delta =
    let vp = v.viewport_loc in
    high v.fb_width (vp.x +ℤ vp.w -ℤ pos 1)
      (low_x vp.x (if v.clip_viewport then delta else neg_ℤ vp.w))

abbrev pub delta_y : View → ℤ → ℤ
delta_y v delta =
    let vp = v.viewport_loc in
    high v.fb_height (vp.y +ℤ vp.h -ℤ pos 1)
      (low_y vp.y (if v.clip_viewport then delta else neg_ℤ vp.h))

-- the viewport moved, and all of it damaged
unfoldable pub move_viewport : ℤ → ℤ → View → View
move_viewport dx dy v =
    let vp = v.viewport_loc in
    let vp' = record vp { x = vp.x +ℤ dx; y = vp.y +ℤ dy } in
    damage vp' (record v { viewport_loc = vp' })

-- The arguments are whole numbers already.
unfoldable pub viewport_change_pos : ℤ → ℤ → Display → Display
viewport_change_pos x y d =
    let dx = delta_x d.view x in
    let dy = delta_y d.view y in
    if same_ℤ dx (pos 0) && same_ℤ dy (pos 0)
    then d
    else flip_display (on_view (move_viewport dx dy) d)

-- the size that is set: the whole framebuffer, or what is asked for, as far as it goes
abbrev pub wanted : Bool → ℤ → ℤ → ℤ
wanted clip fb size = if clip then (if ltb_ℤ fb size then fb else size) else fb

-- A new size of the visible canvas clears it.
abbrev pub set_size : ℤ → ℤ → View → View
set_size w h v = record v {
  viewport_loc = record v.viewport_loc { w = w; h = h };
  shown = λ _ _. [];
}

unfoldable pub damage_viewport : View → View
damage_viewport v = damage v.viewport_loc v

unfoldable pub viewport_change_size : ℤ → ℤ → Display → Display
viewport_change_size width height d =
    let v = d.view in
    let w = wanted v.clip_viewport v.fb_width width in
    let h = wanted v.clip_viewport v.fb_height height in
    if same_ℤ v.viewport_loc.w w && same_ℤ v.viewport_loc.h h
    then d
    else flip_display
        (on_view damage_viewport (viewport_change_pos (pos 0) (pos 0) (on_view (set_size w h) d)))

-- `viewportChangeSize(vp.w, vp.h)` and `viewportChangePos(0, 0)`
unfoldable pub readjust : Display → Display
readjust d =
    viewport_change_pos (pos 0) (pos 0)
      (viewport_change_size d.view.viewport_loc.w d.view.viewport_loc.h d)

unfoldable pub set_clip_viewport : Bool → Display → Display
set_clip_viewport clip d = readjust (on_view (λ v. record v { clip_viewport = clip }) d)

-- The hidden canvas keeps what both sizes have. Its size is that of the framebuffer.
abbrev pub resize_canvas : ℤ → ℤ → View → View
resize_canvas width height v = record v {
  back =
      if same_ℤ v.fb_width width && same_ℤ v.fb_height height
      then v.back
      else paint
          (record {
            x = pos 0;
            y = pos 0;
            w = min_ℤ v.fb_width width;
            h = min_ℤ v.fb_height height;
          })
          v.back (λ _ _. []);
  fb_width = width;
  fb_height = height;
}

unfoldable pub resize : ℤ → ℤ → Display → Display
resize width height d = readjust (on_view (resize_canvas width height) d)

-- A new canvas is 300 by 150 and blank.
abbrev pub blank : Plane
blank _ _ = []

-- the constructor, given the size of the visible canvas
unfoldable pub new_display : ℤ → ℤ → Display
new_display width height = record {
  view = record {
    fb_width = pos 0;
    fb_height = pos 0;
    viewport_loc = record { x = pos 0; y = pos 0; w = width; h = height };
    clip_viewport = false;
    damage_bounds = record { left = pos 0; top = pos 0; right = pos 300; bottom = pos 150 };
    back = blank;
    shown = blank;
  };
  render_q = [];
  loaded = λ _. none;
  flush_promise = false;
}
