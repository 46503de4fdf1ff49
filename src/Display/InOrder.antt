-- ===== src/Display/InOrder.antt =====
-- Any calls of core/display.js, with images that load late, draw what they would draw at once, in order.
use mathlib.Core.Path.{subst}
use proxmox_self_service_por.Prelude.{
  ℕ, ◌+◌, ◌≡◌, refl, sym, ap, ◌∙◌, inl, inr, Bool, false, ◌&&◌, ◌||◌, some, List, [], ◌∷◌, arith,
  ltb, length, take, drop, if◌then◌else◌, Bool-cases, All,
}
use proxmox_self_service_por.Prelude.Int.{ℤ, pos}
use proxmox_self_service_por.Display.Canvas.{Plane, Rect}
use proxmox_self_service_por.Display.State.{damage}
use proxmox_self_service_por.Display.Queue.{
  Picture, copy, fill, blit, img, frame, Display, same_ℤ, is_empty, fill_now, copy_now, blit_now,
  draw_on,
}
use proxmox_self_service_por.Display.Draw.{
  on_view, queue_or, flip_display, fill_rect, copy_image, video_frame, blit_image, ArrayView,
  blit_size,
}
use proxmox_self_service_por.Display.Viewport.{
  move_viewport, viewport_change_pos, viewport_change_size, set_clip_viewport, readjust,
  damage_viewport, set_size, delta_x, delta_y, wanted,
}
use proxmox_self_service_por.Display.Calls.{Call, or_same, perform, perform_all}
use proxmox_self_service_por.Display.Order.{
  effect, effects, pending, AreTrue, Draws, Draws-then, Draws-view, if-Draws, push-Draws,
  queue_or-Draws, flip_display-Draws, load-Draws, image_rect-Draws, flush-Draws,
}

-- The bytes that a blit draws, as the caller gives them.
abbrev pub blit_bytes : Rect → ArrayView → ℕ → List ℕ
blit_bytes r arr offset = take (blit_size r) (drop (arr.byte_offset + offset) arr.buffer)

-- A blit that is in range and begins at the start of its buffer; no `resize`.
abbrev pub IsInOrder : Call → Type 0
IsInOrder (Call.blit r arr offset) =
    (arr.byte_offset ≡ 0) × (offset ≡ 0) × (ltb (length arr.buffer) (blit_size r) ≡ false)
IsInOrder (Call.resize w h) = ⊥
IsInOrder _ = Unit

blit_image-queue_or :
    (r : Rect) (arr : ArrayView) (offset : ℕ) (d : Display)
    → arr.byte_offset ≡ 0
    → offset ≡ 0
    → ltb (length arr.buffer) (blit_size r) ≡ false
    → (let bytes = blit_bytes r arr offset in
        blit_image r arr offset d ≡ some (queue_or (blit r bytes) (blit_now r bytes) d))
unfolding blit_image
blit_image-queue_or r arr offset d begin front fits =
    let zero' : arr.byte_offset + offset ≡ 0 = omega arith in
    elim (Bool-cases (is_empty d.render_q)) [
      | inl empty ↦
          let size : arr.byte_offset + offset + blit_size r ≡ blit_size r = omega arith in
          let long : ltb (length arr.buffer) (arr.byte_offset + offset + blit_size r) ≡ false =
            rw size fits in
          rw (empty, long) refl
      | inr busy ↦ rw (busy, fits) (rw zero' refl)
    ]

module _ (pictures : ℕ → Picture) where
  -- What a call does to the hidden canvas if nothing has to wait.
  abbrev pub draws : Call → Plane → Plane
  draws (Call.fill r color) p = effect pictures (fill r color) p
  draws (Call.copy x y r) p = effect pictures (copy x y r) p
  draws (Call.blit r arr offset) p = effect pictures (blit r (blit_bytes r arr offset)) p
  draws (Call.image r n) p =
      if same_ℤ r.w (pos 0) || same_ℤ r.h (pos 0) then p else effect pictures (img n r) p
  draws (Call.video r n) p = effect pictures (frame n r) p
  draws _ p = p

  abbrev pub all_draws : List Call → Plane → Plane
  all_draws [] p = p
  all_draws (c ∷ calls) p = all_draws calls (draws c p)

  change_pos-Draws :
      (x y : ℤ) (d : Display)
      → AreTrue pictures d.loaded
      → Draws pictures d (viewport_change_pos x y d) (λ p. p)
  unfolding viewport_change_pos move_viewport damage
  change_pos-Draws x y d k =
      let dx = delta_x d.view x in
      let dy = delta_y d.view y in
      let d' = on_view (move_viewport dx dy) d in
      if-Draws pictures (same_ℤ dx (pos 0) && same_ℤ dy (pos 0)) d (flip_display d') d (λ p. p)
        (record { known = k; drawn = refl })
        (Draws-then pictures d d' (flip_display d') (λ p. p)
          (Draws-view pictures d (move_viewport dx dy) k refl) (flip_display-Draws pictures d' k))

  change_size-Draws :
      (width height : ℤ) (d : Display)
      → AreTrue pictures d.loaded
      → Draws pictures d (viewport_change_size width height d) (λ p. p)
  unfolding viewport_change_size damage_viewport damage
  change_size-Draws width height d k =
      let v = d.view in
      let w = wanted v.clip_viewport v.fb_width width in
      let h = wanted v.clip_viewport v.fb_height height in
      let d₁ = on_view (set_size w h) d in
      let d₂ = viewport_change_pos (pos 0) (pos 0) d₁ in
      let d₃ = on_view damage_viewport d₂ in
      let moved = change_pos-Draws (pos 0) (pos 0) d₁ k in
      let shown : Draws pictures d d₂ (λ p. p) = record {
        known = moved.known;
        drawn = moved.drawn;
      } in
      let damaged : Draws pictures d d₃ (λ p. p) =
        Draws-then pictures d d₂ d₃ (λ p. p) shown
          (Draws-view pictures d₂ damage_viewport shown.known refl) in
      if-Draws pictures (same_ℤ v.viewport_loc.w w && same_ℤ v.viewport_loc.h h) d (flip_display d₃)
        d (λ p. p) (record { known = k; drawn = refl })
        (Draws-then pictures d d₃ (flip_display d₃) (λ p. p) damaged
          (flip_display-Draws pictures d₃ damaged.known))

  readjust-Draws :
      (d : Display) → AreTrue pictures d.loaded → Draws pictures d (readjust d) (λ p. p)
  unfolding readjust
  readjust-Draws d k =
      let d' = viewport_change_size d.view.viewport_loc.w d.view.viewport_loc.h d in
      let sized = change_size-Draws d.view.viewport_loc.w d.view.viewport_loc.h d k in
      Draws-then pictures d d' _ (λ p. p) sized (change_pos-Draws (pos 0) (pos 0) d' sized.known)

  set_clip-Draws :
      (on : Bool) (d : Display)
      → AreTrue pictures d.loaded
      → Draws pictures d (set_clip_viewport on d) (λ p. p)
  unfolding set_clip_viewport
  set_clip-Draws on d k =
      let r = readjust-Draws (on_view (λ v. record v { clip_viewport = on }) d) k in
      record { known = r.known; drawn = r.drawn }

  blit-Draws :
      (r : Rect) (arr : ArrayView) (offset : ℕ) (d : Display)
      → IsInOrder (Call.blit r arr offset)
      → AreTrue pictures d.loaded
      → Draws pictures d
          (or_same d (blit_image r arr offset d))
          (effect pictures (blit r (blit_bytes r arr offset)))
  unfolding blit_now draw_on damage
  blit-Draws r arr offset d (begin, front, fits) k =
      let bytes = blit_bytes r arr offset in
      subst (λ o. Draws pictures d (or_same d o) (effect pictures (blit r bytes)))
        (sym (blit_image-queue_or r arr offset d begin front fits))
        (queue_or-Draws pictures (blit r bytes) (blit_now r bytes) d (λ v. refl) k)

  perform-Draws :
      (c : Call) (d : Display)
      → IsInOrder c
      → AreTrue pictures d.loaded
      → Draws pictures d (perform pictures c d) (draws c)
  unfolding fill_rect copy_image video_frame fill_now copy_now draw_on damage
  perform-Draws (Call.fill r color) d _ k =
      queue_or-Draws pictures (fill r color) (fill_now r color) d (λ v. refl) k
  perform-Draws (Call.copy x y r) d _ k =
      queue_or-Draws pictures (copy x y r) (copy_now x y r) d (λ v. refl) k
  perform-Draws (Call.blit r arr offset) d p k = blit-Draws r arr offset d p k
  perform-Draws (Call.image r n) d _ k = image_rect-Draws pictures r n d k
  perform-Draws (Call.video r n) d _ k = push-Draws pictures (frame n r) d k
  perform-Draws Call.flip d _ k = flip_display-Draws pictures d k
  perform-Draws Call.flush d _ k = flush-Draws pictures d k
  perform-Draws (Call.complete n) d _ k = load-Draws pictures n d k
  perform-Draws (Call.change_pos x y) d _ k = change_pos-Draws x y d k
  perform-Draws (Call.change_size w h) d _ k = change_size-Draws w h d k
  perform-Draws (Call.clip on) d _ k = set_clip-Draws on d k
  perform-Draws (Call.resize w h) d p k = absurd p

  perform_all-Draws :
      (calls : List Call) (d : Display)
      → All IsInOrder calls
      → AreTrue pictures d.loaded
      → Draws pictures d (perform_all pictures calls d) (all_draws calls)
  unfolding perform_all
  perform_all-Draws [] d _ k = record { known = k; drawn = refl }
  perform_all-Draws (c ∷ calls) d (p, ps) k =
      let one = perform-Draws c d p k in
      let rest = perform_all-Draws calls (perform pictures c d) ps one.known in
      record { known = rest.known; drawn = rest.drawn ∙ ap (all_draws calls) one.drawn }

-- Any calls on a display whose complete pictures are what `pictures` says, without a `resize`, with
-- blits that begin at the start of their buffers and are in range: once nothing is queued, the hidden
-- canvas is as if every call had been drawn at once, in order, however late the images have loaded.
pub perform_all-drawn :
    (pictures : ℕ → Picture) (calls : List Call) (d : Display)
    → All IsInOrder calls
    → AreTrue pictures d.loaded
    → (perform_all pictures calls d).render_q ≡ []
    → (perform_all pictures calls d).view.back ≡ all_draws pictures calls (pending pictures d)
perform_all-drawn pictures calls d p k empty =
    let d' = perform_all pictures calls d in
    sym (ap (λ q. effects pictures q d'.view.back) empty)
    ∙ (perform_all-Draws pictures calls d p k).drawn
