-- ===== src/Display/Stuck.antt =====
-- An image of another size than announced at the head of the render queue of core/display.js.
use proxmox_self_service_por.Prelude.{
  ℕ, ◌+◌, ◌≡◌, ◌⊎◌, inl, inr, refl, sym, ap, Bool, true, false, ◌&&◌, ◌||◌, Option, none, some,
  List, [], ◌∷◌, ◌++◌, ◌==◌, arith, ltb, length, take, drop, if◌then◌else◌, Bool-cases,
}
use proxmox_self_service_por.Prelude.Int.{ℤ, pos}
use proxmox_self_service_por.Display.Canvas.{Rect}
use proxmox_self_service_por.Display.State.{View, flip_now}
use proxmox_self_service_por.Display.Queue.{
  Picture, Action, flip, copy, fill, blit, img, frame, Display, same_ℤ, is_empty, img_now, fill_now,
  copy_now, blit_now, run_action, scan_loop, scan_render_q, render_q_push, load, waits_for, flush,
}
use proxmox_self_service_por.Display.Draw.{
  on_view, queue_or, flip_display, fill_rect, copy_image, image_rect, video_frame, blit_image,
  ArrayView, blit_size,
}
use proxmox_self_service_por.Display.Viewport.{
  move_viewport, viewport_change_pos, viewport_change_size, set_clip_viewport, readjust, resize,
  damage_viewport, set_size, resize_canvas, delta_x, delta_y, wanted,
}
use proxmox_self_service_por.Display.Calls.{Call, or_same, perform, perform_all}

-- The picture's size is not the rectangle's.
abbrev pub HasOtherSize : Picture → Rect → Type 0
HasOtherSize p r = (same_ℤ p.width r.w && same_ℤ p.height r.h) ≡ false

-- The image `n` is at the head of the queue; if it is complete, it is `p`.
pub record Heads (p : Picture) (n : ℕ) (r : Rect) (d : Display) : Type 0 where
  pub rest : List Action
  pub head : d.render_q ≡ img n r ∷ rest
  pub known : (d.loaded n ≡ none) ⊎ (d.loaded n ≡ some p)

module _ (p : Picture) (n : ℕ) (r : Rect) (other : HasOtherSize p r) where
  stops : (o : Option Picture) (v : View) → (o ≡ none) ⊎ (o ≡ some p) → img_now r o v ≡ none
  stops o v (inl e) = rw e refl
  stops o v (inr e) = rw (e, other) refl

  scan_loop-stops :
      (loaded : ℕ → Option Picture) (queue rest : List Action) (v : View)
      → queue ≡ img n r ∷ rest
      → (loaded n ≡ none) ⊎ (loaded n ≡ some p)
      → (scan_loop loaded queue v).0 ≡ img n r ∷ rest
  unfolding scan_loop run_action
  scan_loop-stops loaded queue rest v e k =
      rw e (rw (stops (loaded n) v k, scan_loop, run_action) refl)

  scan-Heads : (d : Display) → Heads p n r d → Heads p n r (scan_render_q d)
  unfolding scan_render_q
  scan-Heads d h = record {
    rest = h.rest;
    head = scan_loop-stops d.loaded d.render_q h.rest d.view h.head h.known;
    known = h.known;
  }

  if-Heads :
      (b : Bool) (x y : Display) → Heads p n r x → Heads p n r y → Heads p n r (if b then x else y)
  if-Heads true x y g h = g
  if-Heads false x y g h = h

  push-Heads : (a : Action) (d : Display) → Heads p n r d → Heads p n r (render_q_push a d)
  unfolding render_q_push
  push-Heads a d h =
      let d' = record d { render_q = d.render_q ++ (a ∷ []) } in
      let h' : Heads p n r d' = record {
        rest = h.rest ++ (a ∷ []);
        head = ap (λ q. q ++ (a ∷ [])) h.head;
        known = h.known;
      } in
      if-Heads (length d'.render_q == 1) (scan_render_q d') d' (scan-Heads d' h') h'

  view-Heads : (f : View → View) (d : Display) → Heads p n r d → Heads p n r (on_view f d)
  view-Heads f d h = record { rest = h.rest; head = h.head; known = h.known }

  queue_or-Heads :
      (a : Action) (now : View → View) (d : Display)
      → Heads p n r d
      → Heads p n r (queue_or a now d)
  queue_or-Heads a now d h =
      if-Heads (is_empty d.render_q) (on_view now d) (render_q_push a d) (view-Heads now d h)
        (push-Heads a d h)

  flip_display-Heads : (d : Display) → Heads p n r d → Heads p n r (flip_display d)
  unfolding flip_display
  flip_display-Heads d h = queue_or-Heads flip flip_now d h

  change_pos-Heads :
      (x y : ℤ) (d : Display) → Heads p n r d → Heads p n r (viewport_change_pos x y d)
  unfolding viewport_change_pos
  change_pos-Heads x y d h =
      let dx = delta_x d.view x in
      let dy = delta_y d.view y in
      let d' = on_view (move_viewport dx dy) d in
      if-Heads (same_ℤ dx (pos 0) && same_ℤ dy (pos 0)) d (flip_display d') h
        (flip_display-Heads d' (view-Heads (move_viewport dx dy) d h))

  change_size-Heads :
      (width height : ℤ) (d : Display)
      → Heads p n r d
      → Heads p n r (viewport_change_size width height d)
  unfolding viewport_change_size
  change_size-Heads width height d h =
      let v = d.view in
      let w = wanted v.clip_viewport v.fb_width width in
      let k = wanted v.clip_viewport v.fb_height height in
      let d₁ = on_view (set_size w k) d in
      let d₂ = viewport_change_pos (pos 0) (pos 0) d₁ in
      let d₃ = on_view damage_viewport d₂ in
      if-Heads (same_ℤ v.viewport_loc.w w && same_ℤ v.viewport_loc.h k) d (flip_display d₃) h (
        flip_display-Heads d₃ (
          view-Heads damage_viewport d₂
            (change_pos-Heads (pos 0) (pos 0) d₁ (view-Heads (set_size w k) d h))))

  readjust-Heads : (d : Display) → Heads p n r d → Heads p n r (readjust d)
  unfolding readjust
  readjust-Heads d h =
      let loc = d.view.viewport_loc in
      change_pos-Heads (pos 0) (pos 0) (viewport_change_size loc.w loc.h d)
        (change_size-Heads loc.w loc.h d h)

  blit-Heads :
      (q : Rect) (arr : ArrayView) (offset : ℕ) (d : Display)
      → Heads p n r d
      → Heads p n r (or_same d (blit_image q arr offset d))
  unfolding blit_image
  blit-Heads q arr offset d h =
      let fits = ltb (length arr.buffer) (arr.byte_offset + offset + blit_size q) in
      let bytes = take (blit_size q) (drop (arr.byte_offset + offset) arr.buffer) in
      either (is_empty d.render_q) fits (ltb (length arr.buffer) (blit_size q)) (blit_now q bytes)
        (blit q (take (blit_size q) arr.buffer))
    where
      either :
          (a b c : Bool) (now : View → View) (act : Action)
          → Heads p n r (
              or_same d (
                if a
                then (if b then none else some (on_view now d))
                else if c
                then none
                else some (render_q_push act d)))
      either true true c now act = h
      either true false c now act = view-Heads now d h
      either false b true now act = h
      either false b false now act = push-Heads act d h

  flush-Heads : (d : Display) → Heads p n r d → Heads p n r (flush d).1
  unfolding flush
  flush-Heads d h = either (is_empty d.render_q)
    where
      either :
          (b : Bool)
          → (let o : Bool × Display =
                if b then (true, d) else (false, record d { flush_promise = true }) in
              Heads p n r o.1)
      either true = h
      either false = record { rest = h.rest; head = h.head; known = h.known }

  load-Heads :
      (m : ℕ) (q : Picture) (d : Display)
      → ((n == m) ≡ true → q ≡ p)
      → Heads p n r d
      → Heads p n r (load m q d)
  unfolding load
  load-Heads m q d same h =
      let loaded' = λ (i : ℕ). if i == m then some q else d.loaded i in
      let d' = record d { loaded = loaded' } in
      let k : (loaded' n ≡ none) ⊎ (loaded' n ≡ some p) = elim (Bool-cases (n == m)) [
        | inl yes' ↦ rw yes' (inr (ap (λ t. some t) (same yes')))
        | inr no' ↦ rw no' h.known
      ] in
      let h' : Heads p n r d' = record { rest = h.rest; head = h.head; known = k } in
      if-Heads (waits_for m d.render_q) (scan_render_q d') d' (scan-Heads d' h') h'

perform-Heads :
    (pictures : ℕ → Picture) (n : ℕ) (r : Rect) (c : Call) (d : Display)
    → HasOtherSize (pictures n) r
    → Heads (pictures n) n r d
    → Heads (pictures n) n r (perform pictures c d)
unfolding fill_rect copy_image image_rect video_frame set_clip_viewport resize
perform-Heads pictures n r (Call.fill q color) d o h =
    queue_or-Heads (pictures n) n r o (fill q color) (fill_now q color) d h
perform-Heads pictures n r (Call.copy x y q) d o h =
    queue_or-Heads (pictures n) n r o (copy x y q) (copy_now x y q) d h
perform-Heads pictures n r (Call.blit q arr offset) d o h =
    blit-Heads (pictures n) n r o q arr offset d h
perform-Heads pictures n r (Call.image q m) d o h =
    if-Heads (pictures n) n r o (same_ℤ q.w (pos 0) || same_ℤ q.h (pos 0)) d
      (render_q_push (img m q) d) h (push-Heads (pictures n) n r o (img m q) d h)
perform-Heads pictures n r (Call.video q m) d o h = push-Heads (pictures n) n r o (frame m q) d h
perform-Heads pictures n r Call.flip d o h = flip_display-Heads (pictures n) n r o d h
perform-Heads pictures n r Call.flush d o h = flush-Heads (pictures n) n r o d h
perform-Heads pictures n r (Call.complete m) d o h =
    load-Heads (pictures n) n r o m (pictures m) d (λ e. ap pictures (sym (eq_of n m e))) h
  where
    eq_of : (i j : ℕ) → (i == j) ≡ true → i ≡ j
    eq_of i j e = ground arith
perform-Heads pictures n r (Call.change_pos x y) d o h = change_pos-Heads (pictures n) n r o x y d h
perform-Heads pictures n r (Call.change_size x y) d o h =
    change_size-Heads (pictures n) n r o x y d h
perform-Heads pictures n r (Call.clip on) d o h =
    readjust-Heads (pictures n) n r o (on_view (λ v. record v { clip_viewport = on }) d)
      (view-Heads (pictures n) n r o (λ v. record v { clip_viewport = on }) d h)
perform-Heads pictures n r (Call.resize x y) d o h =
    readjust-Heads (pictures n) n r o (on_view (resize_canvas x y) d)
      (view-Heads (pictures n) n r o (resize_canvas x y) d h)

perform_all-Heads :
    (pictures : ℕ → Picture) (n : ℕ) (r : Rect) (calls : List Call) (d : Display)
    → HasOtherSize (pictures n) r
    → Heads (pictures n) n r d
    → Heads (pictures n) n r (perform_all pictures calls d)
unfolding perform_all
perform_all-Heads pictures n r [] d o h = h
perform_all-Heads pictures n r (c ∷ calls) d o h =
    perform_all-Heads pictures n r calls (perform pictures c d) o
      (perform-Heads pictures n r c d o h)

-- If an image at the head of the queue is not of the announced size, or will not be when it is complete,
-- nothing gets past it: after any calls, with any images loading in between, a flush finds the queue
-- not empty.
pub flush_stuck :
    (pictures : ℕ → Picture) (n : ℕ) (r : Rect) (calls : List Call) (d : Display)
    → HasOtherSize (pictures n) r
    → Heads (pictures n) n r d
    → (flush (perform_all pictures calls d)).0 ≡ false
unfolding flush
flush_stuck pictures n r calls d o h =
    let d' = perform_all pictures calls d in
    let k = perform_all-Heads pictures n r calls d o h in
    let busy : is_empty d'.render_q ≡ false = rw (k.head) refl in rw busy refl
