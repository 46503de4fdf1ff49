-- ===== src/Display/Keeps.antt =====
-- What holds of the view of core/display.js through drawing and flipping holds through the render queue.
use proxmox_self_service_por.Prelude.{
  ℕ, ◌+◌, inl, inr, ◌&&◌, ◌||◌, Option, none, some, List, [], ◌∷◌, ◌++◌, ◌==◌, ltb, length,
  if◌then◌else◌, Bool-cases,
}
use proxmox_self_service_por.Prelude.Int.{ℤ, pos, ◌-ℤ◌}
use proxmox_self_service_por.Display.Canvas.{Plane, Pixel, Rect, moved, drawn, image_data}
use proxmox_self_service_por.Display.State.{View, flip_now}
use proxmox_self_service_por.Display.Queue.{
  Action, flip, copy, fill, blit, img, frame, Display, Picture, same_ℤ, is_empty, draw_on, fill_now,
  copy_now, blit_now, picture_now, img_now, frame_now, run_action, scan_loop, scan_render_q,
  render_q_push, load, waits_for, rgb, flush,
}
use proxmox_self_service_por.Display.Draw.{
  queue_or, flip_display, image_rect, blit_image, ArrayView, blit_size,
}

-- Drawing and flipping keep `P`.
pub record Kept (P : View → Type 0) : Type 0 where
  pub draws : (r : Rect) (new : Plane) (v : View) → P v → P (draw_on r new v)
  pub flips : (v : View) → P v → P (flip_now v)

module _ {P : View → Type 0} (k : Kept P) where
  pub blit_now-keeps : (r : Rect) (bytes : List ℕ) (v : View) → P v → P (blit_now r bytes v)
  unfolding blit_now
  blit_now-keeps r bytes v s = k.draws r (image_data r.x r.y r.w bytes) v s

  pub fill_now-keeps : (r : Rect) (color : Pixel) (v : View) → P v → P (fill_now r color v)
  unfolding fill_now
  fill_now-keeps r color v s = k.draws r (λ _ _. rgb color) v s

  pub copy_now-keeps : (x y : ℤ) (r : Rect) (v : View) → P v → P (copy_now x y r v)
  unfolding copy_now
  copy_now-keeps x y r v s = k.draws r (drawn (moved (r.x -ℤ x) (r.y -ℤ y) v.back) v.back) v s

  abbrev pub ViewKept : Option View → Type 0
  ViewKept none = Unit
  ViewKept (some v) = P v

  img_now-keeps : (r : Rect) (o : Option Picture) (v : View) → P v → ViewKept (img_now r o v)
  unfolding picture_now
  img_now-keeps r none v s = tt
  img_now-keeps r (some p) v s = elim (Bool-cases (same_ℤ p.width r.w && same_ℤ p.height r.h)) [
    | inl right ↦
        rw (right, ViewKept)
          (k.draws (record r { w = p.width; h = p.height }) (drawn (moved r.x r.y p.pixels) v.back)
            v s)
    | inr wrong ↦ rw (wrong, ViewKept) tt
  ]

  frame_now-keeps : (r : Rect) (o : Option Picture) (v : View) → P v → ViewKept (frame_now r o v)
  unfolding picture_now
  frame_now-keeps r none v s = tt
  frame_now-keeps r (some p) v s = k.draws r (drawn (moved r.x r.y p.pixels) v.back) v s

  run_action-keeps :
      (loaded : ℕ → Option Picture) (a : Action) (v : View) → P v → ViewKept (run_action loaded a v)
  unfolding run_action
  run_action-keeps loaded flip v s = k.flips v s
  run_action-keeps loaded (copy x y r) v s = copy_now-keeps x y r v s
  run_action-keeps loaded (fill r color) v s = fill_now-keeps r color v s
  run_action-keeps loaded (blit r bytes) v s = blit_now-keeps r bytes v s
  run_action-keeps loaded (img n r) v s = img_now-keeps r (loaded n) v s
  run_action-keeps loaded (frame n r) v s = frame_now-keeps r (loaded n) v s

  scan_loop-keeps :
      (loaded : ℕ → Option Picture) (queue : List Action) (v : View)
      → P v
      → P (scan_loop loaded queue v).1
  unfolding scan_loop
  scan_loop-keeps loaded [] v s = s
  scan_loop-keeps loaded (a ∷ queue) v s =
      go (run_action loaded a v) (run_action-keeps loaded a v s)
        (λ v' s'. scan_loop-keeps loaded queue v' s')
    where
      go :
          (o : Option View)
          → ViewKept o
          → ((v' : View) → P v' → P (scan_loop loaded queue v').1)
          → P
              (elim o as (λ _. List Action × View) [
                | none ↦ (a ∷ queue, v)
                | some v' ↦ scan_loop loaded queue v'
              ]).1
      go none q ih = s
      go (some v') q ih = ih v' q

  pub scan-keeps : (d : Display) → P d.view → P (scan_render_q d).view
  unfolding scan_render_q
  scan-keeps d s = scan_loop-keeps d.loaded d.render_q d.view s

  pub push-keeps : (a : Action) (d : Display) → P d.view → P (render_q_push a d).view
  unfolding render_q_push
  push-keeps a d s =
      let d' = record d { render_q = d.render_q ++ (a ∷ []) } in
      elim (Bool-cases (length d'.render_q == 1)) [
        | inl first ↦ rw first (scan-keeps d' s)
        | inr later ↦ rw later s
      ]

  pub queue_or-keeps :
      (a : Action) (now : View → View) (d : Display)
      → ((v : View) → P v → P (now v))
      → P d.view
      → P (queue_or a now d).view
  queue_or-keeps a now d n s = elim (Bool-cases (is_empty d.render_q)) [
    | inl empty ↦ rw empty (n d.view s)
    | inr busy ↦ rw busy (push-keeps a d s)
  ]

  pub flip_display-keeps : (d : Display) → P d.view → P (flip_display d).view
  unfolding flip_display
  flip_display-keeps d s = queue_or-keeps flip flip_now d k.flips s

  pub load-keeps : (n : ℕ) (p : Picture) (d : Display) → P d.view → P (load n p d).view
  unfolding load
  load-keeps n p d s =
      let d' = record d { loaded = λ m. if m == n then some p else d.loaded m } in
      elim (Bool-cases (waits_for n d.render_q)) [
        | inl mine ↦ rw mine (scan-keeps d' s)
        | inr other ↦ rw other s
      ]

  pub image_rect-keeps : (r : Rect) (n : ℕ) (d : Display) → P d.view → P (image_rect r n d).view
  unfolding image_rect
  image_rect-keeps r n d s = elim (Bool-cases (same_ℤ r.w (pos 0) || same_ℤ r.h (pos 0))) [
    | inl none' ↦ rw none' s
    | inr some' ↦ rw some' (push-keeps (img n r) d s)
  ]

  pub flush-keeps : (d : Display) → P d.view → P (flush d).1.view
  unfolding flush
  flush-keeps d s = elim (Bool-cases (is_empty d.render_q)) [
    | inl empty ↦ rw empty s
    | inr busy ↦ rw busy s
  ]

  abbrev pub DisplayKept : Option Display → Type 0
  DisplayKept none = Unit
  DisplayKept (some d) = P d.view

  pub blit_image-keeps :
      (r : Rect) (arr : ArrayView) (offset : ℕ) (d : Display)
      → P d.view
      → DisplayKept (blit_image r arr offset d)
  unfolding blit_image
  blit_image-keeps r arr offset d s = elim (Bool-cases (is_empty d.render_q)) [
    | inl empty ↦
        elim (Bool-cases (ltb (length arr.buffer) (arr.byte_offset + offset + blit_size r))) [
          | inl short ↦ rw (empty, short, DisplayKept) tt
          | inr fits ↦ rw (empty, fits, DisplayKept) (blit_now-keeps r _ d.view s)
        ]
    | inr busy ↦ elim (Bool-cases (ltb (length arr.buffer) (blit_size r))) [
      | inl short ↦ rw (busy, short, DisplayKept) tt
      | inr fits ↦ rw (busy, fits, DisplayKept) (push-keeps _ d s)
    ]
  ]
