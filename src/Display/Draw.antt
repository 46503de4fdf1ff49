-- ===== src/Display/Draw.antt =====
-- The drawing methods of core/display.js, which are queued while anything is in the queue.
use proxmox_self_service_por.Prelude.{
  ℕ, ◌+◌, ◌*◌, ◌||◌, Option, none, some, List, length, ltb, if◌then◌else◌, take, drop,
}
use proxmox_self_service_por.Prelude.Int.{ℤ, pos, pos_part}
use proxmox_self_service_por.Display.Canvas.{Pixel, Rect}
use proxmox_self_service_por.Display.State.{View, flip_now}
use proxmox_self_service_por.Display.Queue.{
  Action, flip, copy, fill, blit, img, frame, Display, same_ℤ, is_empty, fill_now, copy_now,
  blit_now, render_q_push,
}

abbrev pub on_view : (View → View) → Display → Display
on_view f d = record d { view = f d.view }

-- `if (this._renderQ.length !== 0 && !fromQueue)`, for a call from outside
abbrev pub queue_or : Action → (View → View) → Display → Display
queue_or a now d = if is_empty d.render_q then on_view now d else render_q_push a d

unfoldable pub flip_display : Display → Display
flip_display = queue_or flip flip_now

unfoldable pub fill_rect : Rect → Pixel → Display → Display
fill_rect r color = queue_or (fill r color) (fill_now r color)

unfoldable pub copy_image : ℤ → ℤ → Rect → Display → Display
copy_image old_x old_y r = queue_or (copy old_x old_y r) (copy_now old_x old_y r)

-- The image is `n`, made of the MIME type and the bytes.
unfoldable pub image_rect : Rect → ℕ → Display → Display
image_rect r n d = if same_ℤ r.w (pos 0) || same_ℤ r.h (pos 0) then d else render_q_push (img n r) d

unfoldable pub video_frame : Rect → ℕ → Display → Display
video_frame r n = render_q_push (frame n r)

-- A typed array: the buffer behind it, and where it begins there.
pub record ArrayView : Type 0 where
  pub buffer : List ℕ
  pub byte_offset : ℕ

-- `width * height * 4`
abbrev pub blit_size : Rect → ℕ
blit_size r = pos_part r.w * pos_part r.h * 4

-- `none` is the RangeError of a view past the end of the buffer.
unfoldable pub blit_image : Rect → ArrayView → ℕ → Display → Option Display
blit_image r arr offset d =
    if is_empty d.render_q
    then (if ltb (length arr.buffer) (arr.byte_offset + offset + blit_size r)
        then none
        else some (
            on_view (blit_now r (take (blit_size r) (drop (arr.byte_offset + offset) arr.buffer)))
              d))
    else if ltb (length arr.buffer) (blit_size r)
    then none
    else some (render_q_push (blit r (take (blit_size r) arr.buffer)) d)
