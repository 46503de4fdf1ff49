-- ===== src/Display/Sound.antt =====
-- Every call of core/display.js keeps the viewport in the framebuffer, and the visible canvas in sync
-- with the hidden one.
use proxmox_self_service_por.Prelude.{◌≡◌, refl, inl, inr, true, ◌&&◌, Bool-cases}
use proxmox_self_service_por.Prelude.Int.{ℤ, pos, ltb_ℤ, ◌+ℤ◌, ◌≤ℤ◌, ◌<ℤ◌, int_laws}
use proxmox_self_service_por.Display.Canvas.{between}
use proxmox_self_service_por.Display.State.{View, min_ℤ}
use proxmox_self_service_por.Display.Queue.{Display, same_ℤ, draw_on}
use proxmox_self_service_por.Display.Draw.{on_view, flip_display}
use proxmox_self_service_por.Display.Viewport.{
  move_viewport, viewport_change_pos, viewport_change_size, readjust, damage_viewport, set_size,
  delta_x, delta_y, wanted, resize_canvas,
}
use proxmox_self_service_por.Display.Keeps.{Kept, flip_display-keeps}
use proxmox_self_service_por.Display.Bounds.{Fits, both_true}
use proxmox_self_service_por.Display.Placed.{
  Placed, Placed-Kept, Sensible, stays-Placed, change_size-Roomy,
}
use proxmox_self_service_por.Display.Sync.{
  InSync, in_viewport, between→le, le→between, flip_now-InSync, paint-InSync,
  damaged_viewport-InSync,
}

pub InSync-Kept : Kept InSync
unfolding draw_on
InSync-Kept = record { draws = paint-InSync; flips = flip_now-InSync }

-- The viewport is in sync after a change of its place: if the place changes, all of it is damaged.
pub change_pos-InSync :
    (x y : ℤ) (d : Display)
    → ((same_ℤ (delta_x d.view x) (pos 0) && same_ℤ (delta_y d.view y) (pos 0)) ≡ true
        → InSync d.view)
    → InSync (viewport_change_pos x y d).view
unfolding viewport_change_pos move_viewport
change_pos-InSync x y d s =
    let v = d.view in
    let dx = delta_x v x in
    let dy = delta_y v y in
    let vp = record v.viewport_loc { x = v.viewport_loc.x +ℤ dx; y = v.viewport_loc.y +ℤ dy } in
    elim (Bool-cases (same_ℤ dx (pos 0) && same_ℤ dy (pos 0))) [
      | inl stays ↦ rw stays (s stays)
      | inr moves ↦ rw moves (
          flip_display-keeps InSync-Kept (on_view (move_viewport dx dy) d)
            (damaged_viewport-InSync (record v { viewport_loc = vp })))
    ]

-- If the size changes, all of the viewport is damaged too.
pub change_size-InSync :
    (P : View → Type 0) (width height : ℤ) (d : Display)
    → ((v : View) → InSync v → P v)
    → P d.view
    → P (viewport_change_size width height d).view
unfolding viewport_change_size damage_viewport
change_size-InSync P width height d changed kept =
    let v = d.view in
    let w = wanted v.clip_viewport v.fb_width width in
    let h = wanted v.clip_viewport v.fb_height height in
    let d' = viewport_change_pos (pos 0) (pos 0) (on_view (set_size w h) d) in
    elim (Bool-cases (same_ℤ v.viewport_loc.w w && same_ℤ v.viewport_loc.h h)) [
      | inl same ↦ rw same kept
      | inr other ↦ rw other (
          changed (flip_display (on_view damage_viewport d')).view (
            flip_display-keeps InSync-Kept (on_view damage_viewport d')
              (damaged_viewport-InSync d'.view)))
    ]

-- In `readjust`, where neither changes, the viewport is in place.
pub readjust-InSync :
    (d : Display)
    → Sensible d.view
    → pos 0 ≤ℤ d.view.viewport_loc.w
    → pos 0 ≤ℤ d.view.viewport_loc.h
    → (Placed d.view → InSync d.view)
    → InSync (readjust d).view
unfolding readjust
readjust-InSync d s pw ph sync =
    let loc = d.view.viewport_loc in
    let d' = viewport_change_size loc.w loc.h d in
    change_pos-InSync (pos 0) (pos 0) d' (λ still.
      change_size-InSync (λ v. Placed v → InSync v) loc.w loc.h d (λ v k _. k) sync
        (stays-Placed d'.view (pos 0) (pos 0) (change_size-Roomy loc.w loc.h d s pw ph) still))

-- A coordinate of the viewport lies in what is kept of the canvas.
kept_coordinate :
    (old new x w i : ℤ)
    → Fits old x w
    → Fits new x w
    → between (pos 0) w i ≡ true
    → between (pos 0) (pos 0 +ℤ min_ℤ old new) (i +ℤ x) ≡ true
kept_coordinate old new x w i f g h =
    let (l, u) = between→le (pos 0) w i h in
    let low : pos 0 ≤ℤ x = f.low in
    let a : (x +ℤ w) ≤ℤ old = f.end in
    let b : (x +ℤ w) ≤ℤ new = g.end in
    let upper : (i +ℤ x) <ℤ (pos 0 +ℤ min_ℤ old new) =
      min-upper old new (i +ℤ x) (omega int_laws) (omega int_laws) in
    le→between (pos 0) (pos 0 +ℤ min_ℤ old new) (i +ℤ x) (omega int_laws) upper
  where
    min-upper : (a b k : ℤ) → k <ℤ a → k <ℤ b → k <ℤ (pos 0 +ℤ min_ℤ a b)
    min-upper a b k l m = elim (Bool-cases (ltb_ℤ a b)) [
      | inl less ↦ rw less (omega int_laws)
      | inr more ↦ rw more (omega int_laws)
    ]

canvas_pixel :
    (width height : ℤ) (v : View) (i j : ℤ)
    → Placed v
    → Placed (resize_canvas width height v)
    → in_viewport v i j ≡ true
    → (resize_canvas width height v).back (i +ℤ v.viewport_loc.x) (j +ℤ v.viewport_loc.y)
      ≡ v.back (i +ℤ v.viewport_loc.x) (j +ℤ v.viewport_loc.y)
canvas_pixel width height v i j p q h =
    let (hi, hj) = both_true _ _ h in
    let loc = v.viewport_loc in
    let ki = kept_coordinate v.fb_width width loc.x loc.w i p.across q.across hi in
    let kj = kept_coordinate v.fb_height height loc.y loc.h j p.down q.down hj in
    elim (Bool-cases (same_ℤ v.fb_width width && same_ℤ v.fb_height height)) [
      | inl same ↦ rw same refl
      | inr other ↦ rw other (rw (ki, kj) refl)
    ]

-- What a new size of the framebuffer keeps of the hidden canvas holds the viewport.
pub resize_canvas-InSync :
    (width height : ℤ) (v : View)
    → Placed v
    → InSync v
    → Placed (resize_canvas width height v)
    → InSync (resize_canvas width height v)
resize_canvas-InSync width height v p s q = record {
  shows = λ i j h fresh o.
      let same = canvas_pixel width height v i j p q h in
      rw same (s.shows i j h fresh (rw same at o));
}

-- The viewport lies in the framebuffer, and its opaque pixels are shown or are damaged.
pub record Sound (v : View) : Type 0 where
  pub placed : Placed v
  pub sync : InSync v

pub Sound-Kept : Kept Sound
Sound-Kept = record {
  draws = λ r new v s. record {
    placed = Placed-Kept.draws r new v s.placed;
    sync = InSync-Kept.draws r new v s.sync;
  };
  flips =
      λ v s. record { placed = Placed-Kept.flips v s.placed; sync = InSync-Kept.flips v s.sync };
}
