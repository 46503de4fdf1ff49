-- ===== src/Display/Tests.antt =====
-- Runs of the model of core/display.js.
use proxmox_self_service_por.Prelude.{ℕ, ◌≡◌, inl, refl, false, true, List, [], ◌∷◌, arith}
use proxmox_self_service_por.Prelude.Int.{pos, negsuc, ◌+ℤ◌, ◌-ℤ◌}
use proxmox_self_service_por.Display.State.{damage, flip_span, flip_now}
use proxmox_self_service_por.Display.Queue.{
  Display, img, flush, Picture, draw_on, fill_now, render_q_push, scan_render_q, scan_loop,
  run_action, load, picture_now,
}
use proxmox_self_service_por.Display.Draw.{flip_display, fill_rect, image_rect}
use proxmox_self_service_por.Display.Viewport.{
  move_viewport, viewport_change_pos, viewport_change_size, readjust, resize, new_display,
  damage_viewport,
}
use proxmox_self_service_por.Display.Calls.{
  Call, fill, image, complete, change_pos, flip, perform_all,
}
use proxmox_self_service_por.Display.Sync.{Shows}
use proxmox_self_service_por.Display.Order.{pending}
use proxmox_self_service_por.Display.InOrder.{all_draws, perform_all-drawn}
use proxmox_self_service_por.Display.Stuck.{Heads, flush_stuck}
use proxmox_self_service_por.Display.Canvas.{Rect, is_opaque, over}
use proxmox_self_service_por.Display.Viewing.{
  AreProper, display_after, InFramebuffer, flip-Shows, perform_all-InFramebuffer,
}

abbrev pictures : ℕ → Picture
pictures _ = record { width = pos 2; height = pos 2; pixels = λ _ _. 9 ∷ 9 ∷ 9 ∷ 255 ∷ [] }

-- A fill while an image loads, and the viewport moved before the image is there.
abbrev calls : List Call
calls =
    Call.clip true
    ∷ image (record { x = pos 3; y = pos 3; w = pos 2; h = pos 2 }) 1
    ∷ fill (record { x = pos 4; y = pos 4; w = pos 2; h = pos 2 }) (7 ∷ 8 ∷ 9 ∷ [])
    ∷ change_pos (pos 1) (negsuc 0)
    ∷ flip
    ∷ complete 1
    ∷ Call.resize (pos 6) (pos 9)
    ∷ []

sizes : AreProper calls (pos 4) (pos 4) (pos 8) (pos 8)
sizes = (
  omega arith,
  omega arith,
  omega arith,
  omega arith,
  (tt, (tt, (tt, (tt, (tt, (tt, ((omega arith, omega arith), tt))))))),
)

perform_all-InFramebuffer_example :
    InFramebuffer (display_after pictures calls (pos 4) (pos 4) (pos 8) (pos 8)).view
perform_all-InFramebuffer_example =
    perform_all-InFramebuffer pictures calls (pos 4) (pos 4) (pos 8) (pos 8) sizes

abbrev one_fill : List Call
one_fill = fill (record { x = pos 1; y = pos 1; w = pos 2; h = pos 2 }) (7 ∷ 8 ∷ 9 ∷ []) ∷ []

flip-Shows_example :
    Shows
      (flip_display (display_after pictures one_fill (pos 4) (pos 4) (pos 4) (pos 4))).view
      (pos 1)
      (pos 2)
unfolding perform_all resize new_display readjust viewport_change_pos viewport_change_size ◌+ℤ◌ ◌-ℤ◌
    damage_viewport damage flip_display flip_now fill_rect fill_now draw_on move_viewport flip_span
    is_opaque
flip-Shows_example =
    flip-Shows pictures one_fill (pos 4) (pos 4) (pos 4) (pos 4) (pos 1) (pos 2)
      (omega arith, omega arith, omega arith, omega arith, (tt, tt)) refl refl refl

-- A fill that waits for an image.
abbrev late : List Call
late =
    image (record { x = pos 3; y = pos 3; w = pos 2; h = pos 2 }) 1
    ∷ fill (record { x = pos 4; y = pos 4; w = pos 2; h = pos 2 }) (7 ∷ 8 ∷ 9 ∷ [])
    ∷ complete 1
    ∷ []

perform_all-drawn_example :
    (perform_all pictures late (new_display (pos 4) (pos 4))).view.back
    ≡ all_draws pictures late (pending pictures (new_display (pos 4) (pos 4)))
unfolding perform_all new_display image_rect fill_rect fill_now draw_on damage render_q_push
    scan_render_q scan_loop run_action load picture_now over is_opaque
perform_all-drawn_example =
    perform_all-drawn pictures late (new_display (pos 4) (pos 4)) (tt, (tt, (tt, tt)))
      (λ n. inl refl) refl

-- An image that was announced as 3 by 3.
abbrev wrong : Rect
wrong = record { x = pos 0; y = pos 0; w = pos 3; h = pos 3 }

abbrev waiting : Display
waiting = record (new_display (pos 4) (pos 4)) { render_q = img 1 wrong ∷ [] }

waiting-Heads : Heads (pictures 1) 1 wrong waiting
unfolding new_display
waiting-Heads = record { rest = []; head = refl; known = inl refl }

flush_stuck_example : (flush (perform_all pictures calls waiting)).0 ≡ false
flush_stuck_example = flush_stuck pictures 1 wrong calls waiting refl waiting-Heads
