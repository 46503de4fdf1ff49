-- ===== src/Display/Placed.antt =====
-- The viewport of core/display.js lies in the framebuffer, through every method that moves or sizes one
-- of them.
use mathlib.Core.Path.{subst}
use proxmox_self_service_por.Prelude.{
  ◌≡◌, refl, sym, inl, inr, Bool, true, ◌&&◌, arith, if◌then◌else◌, Bool-cases,
}
use proxmox_self_service_por.Prelude.Int.{ℤ, pos, pos_part, neg_part, ◌+ℤ◌, ◌≤ℤ◌, int_laws}
use proxmox_self_service_por.Display.State.{View, damage, flip_now}
use proxmox_self_service_por.Display.Queue.{Display, same_ℤ, draw_on}
use proxmox_self_service_por.Display.Draw.{on_view, flip_display}
use proxmox_self_service_por.Display.Viewport.{
  move_viewport, viewport_change_pos, viewport_change_size, readjust, resize, resize_canvas,
  set_clip_viewport, damage_viewport, set_size, delta_x, delta_y, neg_ℤ, wanted,
}
use proxmox_self_service_por.Display.Keeps.{Kept, flip_display-keeps}
use proxmox_self_service_por.Display.Bounds.{
  both_true, Fits, Smaller, delta_x-Fits, delta_y-Fits, Fits-Smaller, wanted-Smaller,
}

pub record Placed (v : View) : Type 0 where
  pub across : Fits v.fb_width v.viewport_loc.x v.viewport_loc.w
  pub down : Fits v.fb_height v.viewport_loc.y v.viewport_loc.h

-- The viewport may be out of place, but there is room for it.
pub record Roomy (v : View) : Type 0 where
  pub across : Smaller v.fb_width v.viewport_loc.x v.viewport_loc.w
  pub down : Smaller v.fb_height v.viewport_loc.y v.viewport_loc.h

-- The framebuffer's size and the viewport's place are not negative.
pub record Sensible (v : View) : Type 0 where
  pub width : pos 0 ≤ℤ v.fb_width
  pub height : pos 0 ≤ℤ v.fb_height
  pub x : pos 0 ≤ℤ v.viewport_loc.x
  pub y : pos 0 ≤ℤ v.viewport_loc.y

pub Placed-Kept : Kept Placed
unfolding flip_now draw_on damage
Placed-Kept = record {
  draws = λ r new v p. record { across = p.across; down = p.down };
  flips = λ v p. record { across = p.across; down = p.down };
}

pub Placed-Roomy : (v : View) → Placed v → Roomy v
Placed-Roomy v p = record { across = Fits-Smaller _ _ _ p.across; down = Fits-Smaller _ _ _ p.down }

same_ℤ→eq : (a b : ℤ) → same_ℤ a b ≡ true → a ≡ b
same_ℤ→eq a b h = ground arith

Fits-still : (fb x w delta : ℤ) → Fits fb (x +ℤ delta) w → delta ≡ pos 0 → Fits fb x w
Fits-still fb x w delta f e =
    let low : pos 0 ≤ℤ (x +ℤ delta) = f.low in
    let end : (x +ℤ delta +ℤ w) ≤ℤ fb = f.end in
    let p : pos_part delta ≡ 0 = rw e refl in
    let n : neg_part delta ≡ 0 = rw e refl in
    record { low = omega int_laws; size = f.size; end = omega int_laws }

across-Fits :
    (v : View) (x : ℤ)
    → Roomy v
    → Fits v.fb_width (v.viewport_loc.x +ℤ delta_x v x) v.viewport_loc.w
across-Fits v x r =
    delta_x-Fits v.fb_width v.viewport_loc.x v.viewport_loc.w
      (if v.clip_viewport then x else neg_ℤ v.viewport_loc.w) r.across

down-Fits :
    (v : View) (y : ℤ)
    → Roomy v
    → Fits v.fb_height (v.viewport_loc.y +ℤ delta_y v y) v.viewport_loc.h
down-Fits v y r =
    delta_y-Fits v.fb_height v.viewport_loc.y v.viewport_loc.h
      (if v.clip_viewport then y else neg_ℤ v.viewport_loc.h) r.down

-- If nothing is to be moved, the viewport is in place already.
pub stays-Placed :
    (v : View) (x y : ℤ)
    → Roomy v
    → (same_ℤ (delta_x v x) (pos 0) && same_ℤ (delta_y v y) (pos 0)) ≡ true
    → Placed v
stays-Placed v x y r still =
    let (ex, ey) = both_true _ _ still in
    record {
      across = Fits-still _ _ _ (delta_x v x) (across-Fits v x r) (same_ℤ→eq _ _ ex);
      down = Fits-still _ _ _ (delta_y v y) (down-Fits v y r) (same_ℤ→eq _ _ ey);
    }

moved-Placed : (v : View) (x y : ℤ) → Roomy v → Placed (move_viewport (delta_x v x) (delta_y v y) v)
unfolding move_viewport damage
moved-Placed v x y r = record { across = across-Fits v x r; down = down-Fits v y r }

pub change_pos-Placed :
    (x y : ℤ) (d : Display) → Roomy d.view → Placed (viewport_change_pos x y d).view
unfolding viewport_change_pos
change_pos-Placed x y d r =
    let dx = delta_x d.view x in
    let dy = delta_y d.view y in
    elim (Bool-cases (same_ℤ dx (pos 0) && same_ℤ dy (pos 0))) [
      | inl stays ↦ rw stays (stays-Placed d.view x y r stays)
      | inr moves ↦ rw moves (
          flip_display-keeps Placed-Kept (on_view (move_viewport dx dy) d)
            (moved-Placed d.view x y r))
    ]

-- The viewport has the size that is asked for already, so there is room for it.
same_size-Roomy :
    (width height : ℤ) (v : View)
    → Sensible v
    → pos 0 ≤ℤ width
    → pos 0 ≤ℤ height
    → (same_ℤ v.viewport_loc.w (wanted v.clip_viewport v.fb_width width)
        && same_ℤ v.viewport_loc.h (wanted v.clip_viewport v.fb_height height))
      ≡ true
    → Roomy v
same_size-Roomy width height v s pw ph same =
    let (ew, eh) = both_true _ _ same in
    record {
      across =
          subst (Smaller v.fb_width v.viewport_loc.x) (sym (same_ℤ→eq _ _ ew))
            (wanted-Smaller v.clip_viewport v.fb_width v.viewport_loc.x width s.x s.width pw);
      down =
          subst (Smaller v.fb_height v.viewport_loc.y) (sym (same_ℤ→eq _ _ eh))
            (wanted-Smaller v.clip_viewport v.fb_height v.viewport_loc.y height s.y s.height ph);
    }

sized-Roomy :
    (width height : ℤ) (v : View)
    → Sensible v
    → pos 0 ≤ℤ width
    → pos 0 ≤ℤ height
    → Roomy (
        set_size
          (wanted v.clip_viewport v.fb_width width)
          (wanted v.clip_viewport v.fb_height height)
          v)
sized-Roomy width height v s pw ph = record {
  across = wanted-Smaller v.clip_viewport v.fb_width v.viewport_loc.x width s.x s.width pw;
  down = wanted-Smaller v.clip_viewport v.fb_height v.viewport_loc.y height s.y s.height ph;
}

damaged-Placed : (v : View) → Placed v → Placed (damage_viewport v)
unfolding damage_viewport damage
damaged-Placed v p = record { across = p.across; down = p.down }

-- The size is changed and the viewport is placed, or nothing is done.
change_size-cases :
    (P : View → Type 0) (width height : ℤ) (d : Display)
    → Sensible d.view
    → pos 0 ≤ℤ width
    → pos 0 ≤ℤ height
    → ((v : View) → Placed v → P v)
    → (Roomy d.view → P d.view)
    → P (viewport_change_size width height d).view
unfolding viewport_change_size
change_size-cases P width height d s pw ph placed kept =
    let v = d.view in
    let w = wanted v.clip_viewport v.fb_width width in
    let h = wanted v.clip_viewport v.fb_height height in
    let d' = viewport_change_pos (pos 0) (pos 0) (on_view (set_size w h) d) in
    elim (Bool-cases (same_ℤ v.viewport_loc.w w && same_ℤ v.viewport_loc.h h)) [
      | inl same ↦ rw same (kept (same_size-Roomy width height v s pw ph same))
      | inr changed ↦ rw changed (
          placed (flip_display (on_view damage_viewport d')).view (
            flip_display-keeps Placed-Kept (on_view damage_viewport d') (
              damaged-Placed d'.view (
                change_pos-Placed (pos 0) (pos 0) (on_view (set_size w h) d)
                  (sized-Roomy width height v s pw ph)))))
    ]

pub change_size-Roomy :
    (width height : ℤ) (d : Display)
    → Sensible d.view
    → pos 0 ≤ℤ width
    → pos 0 ≤ℤ height
    → Roomy (viewport_change_size width height d).view
change_size-Roomy width height d s pw ph =
    change_size-cases Roomy width height d s pw ph Placed-Roomy (λ r. r)

pub Placed-Sensible : (v : View) → Placed v → Sensible v
Placed-Sensible v p =
    let r = Placed-Roomy v p in
    record {
      width = at_least _ _ r.across.size r.across.room;
      height = at_least _ _ r.down.size r.down.room;
      x = r.across.low;
      y = r.down.low;
    }
  where
    at_least : (a b : ℤ) → pos 0 ≤ℤ a → a ≤ℤ b → pos 0 ≤ℤ b
    at_least a b l m = omega arith

pub change_size-Placed :
    (width height : ℤ) (d : Display)
    → Placed d.view
    → pos 0 ≤ℤ width
    → pos 0 ≤ℤ height
    → Placed (viewport_change_size width height d).view
change_size-Placed width height d p pw ph =
    change_size-cases Placed width height d (Placed-Sensible d.view p) pw ph (λ v q. q) (λ _. p)

-- After `readjust` the viewport is in place, wherever it was before.
pub readjust-Placed :
    (d : Display)
    → Sensible d.view
    → pos 0 ≤ℤ d.view.viewport_loc.w
    → pos 0 ≤ℤ d.view.viewport_loc.h
    → Placed (readjust d).view
unfolding readjust
readjust-Placed d s pw ph =
    let loc = d.view.viewport_loc in
    change_pos-Placed (pos 0) (pos 0) (viewport_change_size loc.w loc.h d)
      (change_size-Roomy loc.w loc.h d s pw ph)

pub resize-Placed :
    (width height : ℤ) (d : Display)
    → Placed d.view
    → pos 0 ≤ℤ width
    → pos 0 ≤ℤ height
    → Placed (resize width height d).view
unfolding resize
resize-Placed width height d p pw ph =
    readjust-Placed (on_view (resize_canvas width height) d)
      (record { width = pw; height = ph; x = p.across.low; y = p.down.low }) p.across.size
      p.down.size

pub set_clip-Placed :
    (clip : Bool) (d : Display) → Placed d.view → Placed (set_clip_viewport clip d).view
unfolding set_clip_viewport
set_clip-Placed clip d p =
    let s = Placed-Sensible d.view p in
    readjust-Placed (on_view (λ v. record v { clip_viewport = clip }) d)
      (record { width = s.width; height = s.height; x = s.x; y = s.y }) p.across.size p.down.size
