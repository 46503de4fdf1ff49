-- ===== src/Display/Queue.antt =====
-- The render queue of core/display.js: `_renderQPush`, `_scanRenderQ`, `flush`.
use proxmox_self_service_por.Prelude.{
  ℕ, Bool, true, false, ◌&&◌, Option, none, some, List, [], ◌∷◌, ◌++◌, length, ◌==◌, if◌then◌else◌,
}
use proxmox_self_service_por.Prelude.Int.{ℤ, ◌-ℤ◌, ltb_ℤ}
use proxmox_self_service_por.Display.Canvas.{Plane, Pixel, Rect, paint, moved, drawn, image_data}
use proxmox_self_service_por.Display.State.{View, damage, flip_now}

-- What the browser has made of an image or a video frame that is complete: its size and its pixels.
pub record Picture : Type 0 where
  pub width : ℤ
  pub height : ℤ
  pub pixels : Plane

-- The entries of `_renderQ`. An image and a frame are known by a number.
pub data Action : Type 0 where
  flip : Action
  copy : ℤ → ℤ → Rect → Action
  fill : Rect → Pixel → Action
  blit : Rect → List ℕ → Action
  img : ℕ → Rect → Action
  frame : ℕ → Rect → Action

-- The fields. `loaded` holds the images and frames that are complete; `flush_promise` tells if a
-- promise is pending.
pub record Display : Type 0 where
  pub view : View
  pub render_q : List Action
  pub loaded : ℕ → Option Picture
  pub flush_promise : Bool

abbrev pub same_ℤ : ℤ → ℤ → Bool
same_ℤ a b = if ltb_ℤ a b then false else if ltb_ℤ b a then false else true

-- `rgb(...)` of a colour's first three components
abbrev pub rgb : Pixel → Pixel
rgb (r ∷ g ∷ b ∷ rest) = r ∷ g ∷ b ∷ 255 ∷ []
rgb color = color

-- what the drawing calls do once they are not queued
unfoldable pub draw_on : Rect → Plane → View → View
unfolding damage
draw_on r new v = damage r (record v { back = paint r new v.back })

unfoldable pub fill_now : Rect → Pixel → View → View
unfolding draw_on
fill_now r color v = draw_on r (λ _ _. rgb color) v

unfoldable pub copy_now : ℤ → ℤ → Rect → View → View
unfolding draw_on
copy_now old_x old_y r v = draw_on r (drawn (moved (r.x -ℤ old_x) (r.y -ℤ old_y) v.back) v.back) v

unfoldable pub blit_now : Rect → List ℕ → View → View
unfolding draw_on
blit_now r bytes v = draw_on r (image_data r.x r.y r.w bytes) v

-- `drawImage` of a picture's part that is as large as the rectangle
unfoldable pub picture_now : Rect → Picture → View → View
unfolding draw_on
picture_now r p v = draw_on r (drawn (moved r.x r.y p.pixels) v.back) v

-- An image of another size than announced stops the queue.
abbrev pub img_now : Rect → Option Picture → View → Option View
img_now r none v = none
img_now r (some p) v =
    if same_ℤ p.width r.w && same_ℤ p.height r.h
    then some (picture_now (record r { w = p.width; h = p.height }) p v)
    else none

abbrev pub frame_now : Rect → Option Picture → View → Option View
frame_now r none v = none
frame_now r (some p) v = some (picture_now r p v)

-- The first entry of the queue; `none` if the queue stops at it.
unfoldable pub run_action : (ℕ → Option Picture) → Action → View → Option View
run_action loaded flip v = some (flip_now v)
run_action loaded (copy old_x old_y r) v = some (copy_now old_x old_y r v)
run_action loaded (fill r color) v = some (fill_now r color v)
run_action loaded (blit r bytes) v = some (blit_now r bytes v)
run_action loaded (img n r) v = img_now r (loaded n) v
run_action loaded (frame n r) v = frame_now r (loaded n) v

-- the loop of `_scanRenderQ`: what it leaves of the queue, and the view
unfoldable pub scan_loop : (ℕ → Option Picture) → List Action → View → List Action × View
scan_loop loaded [] v = ([], v)
scan_loop loaded (a ∷ queue) v = elim (run_action loaded a v) [
  | none ↦ (a ∷ queue, v)
  | some v' ↦ scan_loop loaded queue v'
]

abbrev pub is_empty : List Action → Bool
is_empty [] = true
is_empty _ = false

-- The promise is resolved when the queue is empty.
unfoldable pub scan_render_q : Display → Display
scan_render_q d =
    let r = scan_loop d.loaded d.render_q d.view in
    record d {
      render_q = r.0;
      view = r.1;
      flush_promise = if is_empty r.0 then false else d.flush_promise;
    }

unfoldable pub render_q_push : Action → Display → Display
unfolding scan_render_q
render_q_push a d =
    let d' = record d { render_q = d.render_q ++ (a ∷ []) } in
    if length d'.render_q == 1 then scan_render_q d' else d'

-- `flush`; the value tells if the promise is resolved already
unfoldable pub flush : Display → Bool × Display
flush d = if is_empty d.render_q then (true, d) else (false, record d { flush_promise = true })

-- An image or a frame becomes complete. The listener, or the promise, scans the queue again if it
-- waits for that one.
abbrev pub waits_for : ℕ → List Action → Bool
waits_for n (img m r ∷ queue) = m == n
waits_for n (frame m r ∷ queue) = m == n
waits_for n _ = false

unfoldable pub load : ℕ → Picture → Display → Display
unfolding scan_render_q
load n p d =
    let d' = record d { loaded = λ m. if m == n then some p else d.loaded m } in
    if waits_for n d.render_q then scan_render_q d' else d'
