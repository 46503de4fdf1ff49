-- ===== src/Display/Calls.antt =====
-- Any sequence of calls of core/display.js, and of images that become complete in between.
use proxmox_self_service_por.Prelude.{ℕ, Bool, Option, none, some, List, [], ◌∷◌}
use proxmox_self_service_por.Prelude.Int.{ℤ}
use proxmox_self_service_por.Display.Canvas.{Pixel, Rect}
use proxmox_self_service_por.Display.Queue
use proxmox_self_service_por.Display.Queue.{Display, Picture}
use proxmox_self_service_por.Display.Draw.{
  ArrayView, flip_display, fill_rect, copy_image, image_rect, video_frame, blit_image,
}
use proxmox_self_service_por.Display.Viewport
use proxmox_self_service_por.Display.Viewport.{
  viewport_change_pos, viewport_change_size, set_clip_viewport,
}

pub data Call : Type 0 where
  fill : Rect → Pixel → Call
  copy : ℤ → ℤ → Rect → Call
  blit : Rect → ArrayView → ℕ → Call
  image : Rect → ℕ → Call
  video : Rect → ℕ → Call
  flip : Call
  flush : Call
  complete : ℕ → Call
  change_pos : ℤ → ℤ → Call
  change_size : ℤ → ℤ → Call
  clip : Bool → Call
  resize : ℤ → ℤ → Call

-- A call that throws leaves the display as it was.
abbrev pub or_same : Display → Option Display → Display
or_same d none = d
or_same d (some d') = d'

-- `pictures` says what each image and frame will turn out to be.
module _ (pictures : ℕ → Picture) where
  abbrev pub perform : Call → Display → Display
  perform (fill r color) d = fill_rect r color d
  perform (copy x y r) d = copy_image x y r d
  perform (blit r arr offset) d = or_same d (blit_image r arr offset d)
  perform (image r n) d = image_rect r n d
  perform (video r n) d = video_frame r n d
  perform flip d = flip_display d
  perform flush d = (Queue.flush d).1
  perform (complete n) d = Queue.load n (pictures n) d
  perform (change_pos x y) d = viewport_change_pos x y d
  perform (change_size w h) d = viewport_change_size w h d
  perform (clip on) d = set_clip_viewport on d
  perform (resize w h) d = Viewport.resize w h d

  unfoldable pub perform_all : List Call → Display → Display
  perform_all [] d = d
  perform_all (c ∷ calls) d = perform_all calls (perform c d)
