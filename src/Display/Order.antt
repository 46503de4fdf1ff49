-- ===== src/Display/Order.antt =====
-- What the render queue of core/display.js promises: as if everything were drawn at once, in order.
use proxmox_self_service_por.Prelude.{
  ℕ, ◌≡◌, ◌⊎◌, inl, inr, refl, sym, ap, ◌∙◌, Bool, true, false, ◌&&◌, ◌||◌, Option, none, some,
  List, [], ◌∷◌, ◌++◌, arith, ◌==◌, length, if◌then◌else◌, Bool-cases,
}
use proxmox_self_service_por.Prelude.Int.{pos, ◌-ℤ◌}
use proxmox_self_service_por.Display.Canvas.{Plane, Rect, paint, moved, drawn, image_data}
use proxmox_self_service_por.Display.State.{View, flip_now, damage}
use proxmox_self_service_por.Display.Queue.{
  Picture, Action, flip, copy, fill, blit, img, frame, Display, same_ℤ, rgb, is_empty, draw_on,
  fill_now, copy_now, blit_now, picture_now, img_now, frame_now, run_action, scan_loop,
  scan_render_q, render_q_push, load, waits_for, flush,
}
use proxmox_self_service_por.Display.Draw.{on_view, queue_or, flip_display, image_rect}

module _ (pictures : ℕ → Picture) where
  -- What an action does to the hidden canvas, once all pictures are there.
  abbrev pub effect : Action → Plane → Plane
  effect flip p = p
  effect (copy x y r) p = paint r (drawn (moved (r.x -ℤ x) (r.y -ℤ y) p) p) p
  effect (fill r color) p = paint r (λ _ _. rgb color) p
  effect (blit r bytes) p = paint r (image_data r.x r.y r.w bytes) p
  effect (img n r) p =
      let q = pictures n in
      paint (record r { w = q.width; h = q.height }) (drawn (moved r.x r.y q.pixels) p) p
  effect (frame n r) p = paint r (drawn (moved r.x r.y (pictures n).pixels) p) p

  abbrev pub effects : List Action → Plane → Plane
  effects [] p = p
  effects (a ∷ queue) p = effects queue (effect a p)

  -- The hidden canvas as it will be when the queue is done.
  abbrev pub pending : Display → Plane
  pending d = effects d.render_q d.view.back

  -- A picture that is complete is the one that it was to become.
  abbrev pub AreTrue : (ℕ → Option Picture) → Type 0
  AreTrue loaded = (n : ℕ) → (loaded n ≡ none) ⊎ (loaded n ≡ some (pictures n))

  effects-append :
      (queue : List Action) (a : Action) (p : Plane)
      → effects (queue ++ (a ∷ [])) p ≡ effect a (effects queue p)
  effects-append [] a p = refl
  effects-append (b ∷ queue) a p = effects-append queue a (effect b p)

  abbrev AfterAction : Action → View → Option View → Type 0
  AfterAction a v none = Unit
  AfterAction a v (some v') = v'.back ≡ effect a v.back

  img-AfterAction :
      (loaded : ℕ → Option Picture) (n : ℕ) (r : Rect) (v : View)
      → AreTrue loaded
      → AfterAction (img n r) v (img_now r (loaded n) v)
  unfolding picture_now draw_on damage
  img-AfterAction loaded n r v k = elim (k n) [
    | inl missing ↦ rw (missing, AfterAction) tt
    | inr there ↦
        elim (Bool-cases (same_ℤ (pictures n).width r.w && same_ℤ (pictures n).height r.h)) [
          | inl right ↦ rw (there, right, AfterAction) refl
          | inr wrong ↦ rw (there, wrong, AfterAction) tt
        ]
  ]

  frame-AfterAction :
      (loaded : ℕ → Option Picture) (n : ℕ) (r : Rect) (v : View)
      → AreTrue loaded
      → AfterAction (frame n r) v (frame_now r (loaded n) v)
  unfolding picture_now draw_on damage
  frame-AfterAction loaded n r v k = elim (k n) [
    | inl missing ↦ rw (missing, AfterAction) tt
    | inr there ↦ rw (there, AfterAction) refl
  ]

  run_action-AfterAction :
      (loaded : ℕ → Option Picture) (a : Action) (v : View)
      → AreTrue loaded
      → AfterAction a v (run_action loaded a v)
  unfolding run_action fill_now copy_now blit_now draw_on damage flip_now
  run_action-AfterAction loaded flip v k = refl
  run_action-AfterAction loaded (copy x y r) v k = refl
  run_action-AfterAction loaded (fill r color) v k = refl
  run_action-AfterAction loaded (blit r bytes) v k = refl
  run_action-AfterAction loaded (img n r) v k = img-AfterAction loaded n r v k
  run_action-AfterAction loaded (frame n r) v k = frame-AfterAction loaded n r v k

  -- The loop of `_scanRenderQ` takes from the queue just what it draws.
  scan_loop-effects :
      (loaded : ℕ → Option Picture) (queue : List Action) (v : View)
      → AreTrue loaded
      → effects (scan_loop loaded queue v).0 (scan_loop loaded queue v).1.back
        ≡ effects queue v.back
  unfolding scan_loop
  scan_loop-effects loaded [] v k = refl
  scan_loop-effects loaded (a ∷ queue) v k =
      go (run_action loaded a v) (run_action-AfterAction loaded a v k)
        (λ v'. scan_loop-effects loaded queue v' k)
    where
      go :
          (o : Option View)
          → AfterAction a v o
          → ((v' : View)
              → effects (scan_loop loaded queue v').0 (scan_loop loaded queue v').1.back
                ≡ effects queue v'.back)
          → (let r : List Action × View = elim o as (λ _. List Action × View) [
            | none ↦ (a ∷ queue, v)
            | some v' ↦ scan_loop loaded queue v'
          ] in
              effects r.0 r.1.back)
            ≡ effects queue (effect a v.back)
      go none h ih = refl
      go (some v') h ih = ih v' ∙ ap (effects queue) h

  eq_of : (m n : ℕ) → (m == n) ≡ true → m ≡ n
  eq_of m n h = ground arith

  -- From `d` to `d'` the picture to come changes by `f`, and the complete pictures stay true.
  pub record Draws (d d' : Display) (f : Plane → Plane) : Type 0 where
    pub known : AreTrue d'.loaded
    pub drawn : pending d' ≡ f (pending d)

  pub scan-Draws : (d : Display) → AreTrue d.loaded → Draws d (scan_render_q d) (λ p. p)
  unfolding scan_render_q
  scan-Draws d k = record { known = k; drawn = scan_loop-effects d.loaded d.render_q d.view k }

  pub if-Draws :
      (b : Bool) (x y d : Display) (f : Plane → Plane)
      → Draws d x f
      → Draws d y f
      → Draws d (if b then x else y) f
  if-Draws true x y d f p q = p
  if-Draws false x y d f p q = q

  -- a change that draws nothing follows
  pub Draws-then :
      (d d' d'' : Display) (f : Plane → Plane)
      → Draws d d' f
      → Draws d' d'' (λ p. p)
      → Draws d d'' f
  Draws-then d d' d'' f p q = record { known = q.known; drawn = q.drawn ∙ p.drawn }

  added :
      (a : Action) (d : Display)
      → AreTrue d.loaded
      → Draws d (record d { render_q = d.render_q ++ (a ∷ []) }) (effect a)
  added a d k = record { known = k; drawn = effects-append d.render_q a d.view.back }

  pub push-Draws :
      (a : Action) (d : Display) → AreTrue d.loaded → Draws d (render_q_push a d) (effect a)
  unfolding render_q_push
  push-Draws a d k =
      let d' = record d { render_q = d.render_q ++ (a ∷ []) } in
      if-Draws (length d'.render_q == 1) (scan_render_q d') d' d (effect a)
        (Draws-then d d' (scan_render_q d') (effect a) (added a d k) (scan-Draws d' k))
        (added a d k)

  -- A drawing call is queued, or drawn at once if nothing is queued.
  pub queue_or-Draws :
      (a : Action) (now : View → View) (d : Display)
      → ((v : View) → (now v).back ≡ effect a v.back)
      → AreTrue d.loaded
      → Draws d (queue_or a now d) (effect a)
  queue_or-Draws a now d same k = go d.render_q refl
    where
      go :
          (q : List Action)
          → d.render_q ≡ q
          → Draws d (if is_empty q then on_view now d else render_q_push a d) (effect a)
      go (b ∷ q) e = push-Draws a d k
      go [] e = record {
        known = k;
        drawn =
            ap (λ q. effects q (now d.view).back) e
            ∙ same d.view
            ∙ ap (λ q. effect a (effects q d.view.back)) (sym e);
      }

  pub flip_display-Draws : (d : Display) → AreTrue d.loaded → Draws d (flip_display d) (λ p. p)
  unfolding flip_display flip_now
  flip_display-Draws d k = queue_or-Draws flip flip_now d (λ v. refl) k

  -- What leaves the queue and the hidden canvas as they are draws nothing.
  pub Draws-view :
      (d : Display) (f : View → View)
      → AreTrue d.loaded
      → (f d.view).back ≡ d.view.back
      → Draws d (on_view f d) (λ p. p)
  Draws-view d f k same = record { known = k; drawn = ap (effects d.render_q) same }

  pub load-Draws :
      (n : ℕ) (d : Display) → AreTrue d.loaded → Draws d (load n (pictures n) d) (λ p. p)
  unfolding load
  load-Draws n d k =
      let loaded' = λ (m : ℕ). if m == n then some (pictures n) else d.loaded m in
      let d' = record d { loaded = loaded' } in
      let k' : AreTrue loaded' = λ m. known-after m in
      if-Draws (waits_for n d.render_q) (scan_render_q d') d' d (λ p. p)
        (Draws-then d d' (scan_render_q d') (λ p. p) (record { known = k'; drawn = refl })
          (scan-Draws d' k'))
        (record { known = k'; drawn = refl })
    where
      known-after :
          (m : ℕ)
          → ((if m == n then some (pictures n) else d.loaded m) ≡ none)
            ⊎ ((if m == n then some (pictures n) else d.loaded m) ≡ some (pictures m))
      known-after m = elim (Bool-cases (m == n)) [
        | inl same ↦ rw same (inr (ap (λ i. some (pictures i)) (sym (eq_of m n same))))
        | inr other ↦ rw other (k m)
      ]

  pub image_rect-Draws :
      (r : Rect) (n : ℕ) (d : Display)
      → AreTrue d.loaded
      → Draws d
          (image_rect r n d)
          (λ p. if same_ℤ r.w (pos 0) || same_ℤ r.h (pos 0) then p else effect (img n r) p)
  unfolding image_rect
  image_rect-Draws r n d k = elim (Bool-cases (same_ℤ r.w (pos 0) || same_ℤ r.h (pos 0))) [
    | inl nothing ↦ rw nothing (record { known = k; drawn = refl })
    | inr some' ↦ rw some' (push-Draws (img n r) d k)
  ]

  pub flush-Draws : (d : Display) → AreTrue d.loaded → Draws d (flush d).1 (λ p. p)
  unfolding flush
  flush-Draws d k = elim (Bool-cases (is_empty d.render_q)) [
    | inl done ↦ rw done (record { known = k; drawn = refl })
    | inr busy ↦ rw busy (record { known = k; drawn = refl })
  ]
