-- ===== src/Display/Viewing.antt =====
-- What holds of core/display.js after any sequence of calls.
use mathlib.Core.Path.{subst}
use proxmox_self_service_por.Prelude.{
  ℕ, ◌≡◌, refl, sym, Bool, true, Option, none, some, List, [], ◌∷◌, arith, All,
}
use proxmox_self_service_por.Prelude.Int.{ℤ, pos, ◌+ℤ◌, ◌≤ℤ◌}
use proxmox_self_service_por.Display.State.{View, flip_now}
use proxmox_self_service_por.Display.Queue.{
  copy, fill, frame, Display, Picture, is_empty, fill_now, copy_now,
}
use proxmox_self_service_por.Display.Draw.{
  on_view, flip_display, fill_rect, copy_image, video_frame, blit_image,
}
use proxmox_self_service_por.Display.Viewport.{
  set_clip_viewport, resize_canvas, resize, new_display,
}
use proxmox_self_service_por.Display.Calls.{Call, or_same, perform, perform_all}
use proxmox_self_service_por.Display.Keeps.{
  DisplayKept, fill_now-keeps, copy_now-keeps, push-keeps, queue_or-keeps, flip_display-keeps,
  load-keeps, image_rect-keeps, flush-keeps, blit_image-keeps,
}
use proxmox_self_service_por.Display.Placed.{
  Placed-Roomy, Placed-Sensible, Sensible, change_pos-Placed, change_size-Placed, resize-Placed,
  set_clip-Placed, readjust-Placed,
}
use proxmox_self_service_por.Display.Sync.{InSync, Shows, in_viewport, opaque_at, flip_now-Shows}
use proxmox_self_service_por.Display.Sound.{
  Sound, Sound-Kept, change_pos-InSync, change_size-InSync, readjust-InSync, resize_canvas-InSync,
}

-- A size is not negative.
abbrev pub IsProper : Call → Type 0
IsProper (Call.change_size w h) = (pos 0 ≤ℤ w) × (pos 0 ≤ℤ h)
IsProper (Call.resize w h) = (pos 0 ≤ℤ w) × (pos 0 ≤ℤ h)
IsProper _ = Unit

set_clip-InSync : (on : Bool) (d : Display) → Sound d.view → InSync (set_clip_viewport on d).view
unfolding set_clip_viewport
set_clip-InSync on d s =
    let k = Placed-Sensible d.view s.placed in
    readjust-InSync (on_view (λ v. record v { clip_viewport = on }) d)
      (record { width = k.width; height = k.height; x = k.x; y = k.y }) s.placed.across.size
      s.placed.down.size (λ _. record { shows = s.sync.shows })

resize-InSync :
    (width height : ℤ) (d : Display)
    → Sound d.view
    → pos 0 ≤ℤ width
    → pos 0 ≤ℤ height
    → InSync (resize width height d).view
unfolding resize
resize-InSync width height d s pw ph =
    let p = s.placed in
    readjust-InSync (on_view (resize_canvas width height) d)
      (record { width = pw; height = ph; x = p.across.low; y = p.down.low }) p.across.size
      p.down.size (resize_canvas-InSync width height d.view p s.sync)

or_same-Sound :
    (d : Display) (o : Option Display)
    → Sound d.view
    → DisplayKept Sound-Kept o
    → Sound (or_same d o).view
or_same-Sound d none s k = s
or_same-Sound d (some d') s k = k

perform-Sound :
    (pictures : ℕ → Picture) (c : Call) (d : Display)
    → IsProper c
    → Sound d.view
    → Sound (perform pictures c d).view
unfolding fill_rect copy_image video_frame
perform-Sound pictures (Call.fill r color) d _ s =
    queue_or-keeps Sound-Kept (fill r color) (fill_now r color) d
      (fill_now-keeps Sound-Kept r color) s
perform-Sound pictures (Call.copy x y r) d _ s =
    queue_or-keeps Sound-Kept (copy x y r) (copy_now x y r) d (copy_now-keeps Sound-Kept x y r) s
perform-Sound pictures (Call.blit r arr offset) d _ s =
    or_same-Sound d (blit_image r arr offset d) s (blit_image-keeps Sound-Kept r arr offset d s)
perform-Sound pictures (Call.image r n) d _ s = image_rect-keeps Sound-Kept r n d s
perform-Sound pictures (Call.video r n) d _ s = push-keeps Sound-Kept (frame n r) d s
perform-Sound pictures Call.flip d _ s = flip_display-keeps Sound-Kept d s
perform-Sound pictures Call.flush d _ s = flush-keeps Sound-Kept d s
perform-Sound pictures (Call.complete n) d _ s = load-keeps Sound-Kept n (pictures n) d s
perform-Sound pictures (Call.change_pos x y) d _ s = record {
  placed = change_pos-Placed x y d (Placed-Roomy d.view s.placed);
  sync = change_pos-InSync x y d (λ _. s.sync);
}
perform-Sound pictures (Call.change_size w h) d (pw, ph) s = record {
  placed = change_size-Placed w h d s.placed pw ph;
  sync = change_size-InSync InSync w h d (λ v k. k) s.sync;
}
perform-Sound pictures (Call.clip on) d _ s = record {
  placed = set_clip-Placed on d s.placed;
  sync = set_clip-InSync on d s;
}
perform-Sound pictures (Call.resize w h) d (pw, ph) s = record {
  placed = resize-Placed w h d s.placed pw ph;
  sync = resize-InSync w h d s pw ph;
}

perform_all-Sound :
    (pictures : ℕ → Picture) (calls : List Call) (d : Display)
    → All IsProper calls
    → Sound d.view
    → Sound (perform_all pictures calls d).view
unfolding perform_all
perform_all-Sound pictures [] d _ s = s
perform_all-Sound pictures (c ∷ calls) d (p, ps) s =
    perform_all-Sound pictures calls (perform pictures c d) ps (perform-Sound pictures c d p s)

-- A resized blank canvas is blank.
blank-InSync : (tw th w h : ℤ) → InSync (resize_canvas w h (new_display tw th).view)
unfolding new_display
blank-InSync tw th w h = record { shows = λ i j _ _ _. ground arith }

-- The first `resize` puts a new display in order.
started-Sound :
    (tw th w h : ℤ)
    → pos 0 ≤ℤ tw
    → pos 0 ≤ℤ th
    → pos 0 ≤ℤ w
    → pos 0 ≤ℤ h
    → Sound (resize w h (new_display tw th)).view
unfolding resize new_display
started-Sound tw th w h ptw pth pw ph =
    let d = on_view (resize_canvas w h) (new_display tw th) in
    let s : Sensible d.view = record {
      width = pw;
      height = ph;
      x = omega arith;
      y = omega arith;
    } in
    record {
      placed = readjust-Placed d s ptw pth;
      sync = readjust-InSync d s ptw pth (λ _. blank-InSync tw th w h);
    }

-- The display after its first `resize` and some more calls; the target has the size `tw` by `th`.
abbrev pub display_after : (ℕ → Picture) → List Call → ℤ → ℤ → ℤ → ℤ → Display
display_after pictures calls tw th w h = perform_all pictures calls (resize w h (new_display tw th))

-- No size is negative: not the target's, not the one of the first `resize`, not one of the calls.
abbrev pub AreProper : List Call → ℤ → ℤ → ℤ → ℤ → Type 0
AreProper calls tw th w h =
    (pos 0 ≤ℤ tw) × (pos 0 ≤ℤ th) × (pos 0 ≤ℤ w) × (pos 0 ≤ℤ h) × All IsProper calls

after-Sound :
    (pictures : ℕ → Picture) (calls : List Call) (tw th w h : ℤ)
    → AreProper calls tw th w h
    → Sound (display_after pictures calls tw th w h).view
after-Sound pictures calls tw th w h (ptw, pth, pw, ph, p) =
    perform_all-Sound pictures calls (resize w h (new_display tw th)) p
      (started-Sound tw th w h ptw pth pw ph)

-- After any calls on a new display that begin with a `resize`, with no negative size among them, once
-- nothing is queued, a `flip` makes the visible canvas show every opaque pixel that the hidden one has
-- in the viewport: no damage is forgotten, whatever was drawn, queued, moved or resized.
pub flip-Shows :
    (pictures : ℕ → Picture) (calls : List Call) (tw th w h i j : ℤ)
    → AreProper calls tw th w h
    → is_empty (display_after pictures calls tw th w h).render_q ≡ true
    → in_viewport (display_after pictures calls tw th w h).view i j ≡ true
    → opaque_at (display_after pictures calls tw th w h).view i j ≡ true
    → Shows (flip_display (display_after pictures calls tw th w h)).view i j
unfolding flip_display
flip-Shows pictures calls tw th w h i j p empty v o =
    let d = display_after pictures calls tw th w h in
    let eq : flip_display d ≡ on_view flip_now d = rw empty refl in
    subst (λ e. Shows e.view i j) (sym eq)
      (flip_now-Shows d.view (after-Sound pictures calls tw th w h p).sync i j v o)

-- The viewport lies within the framebuffer, along both sides.
abbrev pub InFramebuffer : View → Type 0
InFramebuffer v =
    let loc = v.viewport_loc in
    (pos 0 ≤ℤ loc.x)
    × ((loc.x +ℤ loc.w) ≤ℤ v.fb_width)
    × (pos 0 ≤ℤ loc.y)
    × ((loc.y +ℤ loc.h) ≤ℤ v.fb_height)

-- After any calls on a new display that begin with a `resize`, with no negative size among them, the
-- viewport lies within the framebuffer, along both sides.
pub perform_all-InFramebuffer :
    (pictures : ℕ → Picture) (calls : List Call) (tw th w h : ℤ)
    → AreProper calls tw th w h
    → InFramebuffer (display_after pictures calls tw th w h).view
perform_all-InFramebuffer pictures calls tw th w h p =
    let q = (after-Sound pictures calls tw th w h p).placed in
    (q.across.low, q.across.end, q.down.low, q.down.end)
