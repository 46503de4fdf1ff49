-- ===== src/Rfb/Session/KeepsUpdates.antt =====
-- The server's messages in core/rfb.js keep the connection legal.
use proxmox_self_service_por.Prelude.{
  ℕ, zero, suc, ◌==◌, Bool, true, false, if◌then◌else◌, Option, none, some,
}
use proxmox_self_service_por.Prelude.Int.{ℤ, pos, negsuc}
use proxmox_self_service_por.Rfb.Session.State.{Rfb, Method, endless}
use proxmox_self_service_por.Rfb.Session.Handshake.{Parts}
use proxmox_self_service_por.Rfb.Session.Legal.{Legal}
use proxmox_self_service_por.Rfb.Session.Notices.{
  handle_led_event, handle_server_fence_msg, handle_xvp_msg,
}
use proxmox_self_service_por.Rfb.Session.Updates.{
  handle_desktop_name, handle_server_cut_text, take_cut_text, handle_rect, RectKind, last_rect,
  vmware_cursor, cursor, qemu_key_event, desktop_name, desktop_size, extended_desktop_size,
  extended_mouse_buttons, qemu_led_event, data_rect, rect_kind, by_rect_kind, handle_encoding,
  rect_header, more_rects, rect_loop, finish_update, framebuffer_update, update_from, update_done,
  MessageKind, update, colour_map, bell_rung, cut_text, end_of_updates, fence, xvp, unexpected,
  by_message_kind, message_type, normal_msg,
}
use proxmox_self_service_por.Rfb.Session.Keeps.{
  Keeps, EndedLegal, keeping, bind-Keeps, then-Keeps, modify-Keeps, pure-Keeps, asks-Keeps,
  failing-Keeps,
}
use proxmox_self_service_por.Rfb.Session.KeepsStart.{
  PartsKeep, update_continuous_updates-Keeps, resize-Keeps, set_desktop_name-Keeps,
}

handle_led_event-Keeps : Keeps handle_led_event
unfolding handle_led_event
handle_led_event-Keeps = search keeping depth 20

handle_server_fence_msg-Keeps : Keeps handle_server_fence_msg
unfolding handle_server_fence_msg
handle_server_fence_msg-Keeps = search keeping depth 20

handle_xvp_msg-Keeps : Keeps handle_xvp_msg
unfolding handle_xvp_msg
handle_xvp_msg-Keeps = search keeping depth 20

module _ (parts : Parts) (keep : PartsKeep parts) where
  handle_desktop_name-Keeps : Keeps (handle_desktop_name parts)
  unfolding handle_desktop_name
  handle_desktop_name-Keeps = search (keeping, set_desktop_name-Keeps parts keep) depth 20

  take_cut_text-Keeps : (n : ℤ) → Keeps (take_cut_text parts n)
  take_cut_text-Keeps (pos n) = search keeping depth 20
  take_cut_text-Keeps (negsuc n) = keep.extended_clipboard (suc n)

  handle_server_cut_text-Keeps : Keeps (handle_server_cut_text parts)
  unfolding handle_server_cut_text
  handle_server_cut_text-Keeps = search (keeping, take_cut_text-Keeps) depth 20

  by_rect_kind-Keeps : (k : RectKind) → Keeps (by_rect_kind parts k)
  by_rect_kind-Keeps last_rect = search keeping depth 20
  by_rect_kind-Keeps vmware_cursor = keep.vmware_cursor
  by_rect_kind-Keeps cursor = keep.cursor
  by_rect_kind-Keeps qemu_key_event = search keeping depth 20
  by_rect_kind-Keeps desktop_name = handle_desktop_name-Keeps
  by_rect_kind-Keeps desktop_size = search (keeping, resize-Keeps parts keep) depth 20
  by_rect_kind-Keeps extended_desktop_size = keep.extended_desktop_size
  by_rect_kind-Keeps extended_mouse_buttons = search keeping depth 20
  by_rect_kind-Keeps qemu_led_event = handle_led_event-Keeps
  by_rect_kind-Keeps data_rect = keep.data_rect

  handle_encoding-Keeps : (e : Option ℤ) → Keeps (handle_encoding parts e)
  handle_encoding-Keeps none = keep.data_rect
  handle_encoding-Keeps (some e) = by_rect_kind-Keeps (rect_kind e)

  handle_rect-Keeps : Keeps (handle_rect parts)
  unfolding handle_rect
  handle_rect-Keeps = search (keeping, handle_encoding-Keeps) depth 20

  rect_header-Keeps : (e : Option ℤ) → Keeps (rect_header parts e)
  rect_header-Keeps (some e) = handle_rect-Keeps
  rect_header-Keeps none = search (keeping, handle_rect-Keeps) depth 20

  finish_update-Keeps : Keeps (finish_update parts)
  finish_update-Keeps = search keeping depth 20

  more_rects-Keeps :
      (rest : Method Bool) (left : ℕ) → Keeps rest → Keeps (more_rects parts rest left)
  unfolding more_rects
  more_rects-Keeps rest zero k = finish_update-Keeps
  more_rects-Keeps rest (suc left) k = search (keeping, rect_header-Keeps) depth 20

  rect_loop-Keeps : (rounds : ℕ) → Keeps (rect_loop parts rounds)
  unfolding rect_loop
  rect_loop-Keeps zero = record { legal = λ r h. last r (r.fbu.rects == 0) h }
    where
      last :
          (r : Rfb) (b : Bool)
          → Legal r.link
          → EndedLegal (if b then finish_update parts r else endless r)
      last r true h = finish_update-Keeps.legal r h
      last r false h = h
  rect_loop-Keeps (suc rounds) =
      bind-Keeps _ _ (asks-Keeps _)
        (λ left. more_rects-Keeps (rect_loop parts rounds) left (rect_loop-Keeps rounds))

  update_from-Keeps : (n : ℕ) → Keeps (update_from parts n)
  update_from-Keeps (suc n) = search (keeping, rect_loop-Keeps) depth 20
  update_from-Keeps zero = search (keeping, rect_loop-Keeps) depth 20

  framebuffer_update-Keeps : Keeps (framebuffer_update parts)
  unfolding framebuffer_update
  framebuffer_update-Keeps = search (keeping, update_from-Keeps) depth 20

  update_done-Keeps : (b : Bool) → Keeps (update_done parts b)
  update_done-Keeps false = search keeping depth 20
  update_done-Keeps true = search keeping depth 20

  message_type-Keeps : (n : ℕ) → Keeps (message_type parts n)
  message_type-Keeps zero = search keeping depth 20
  message_type-Keeps (suc n) = search keeping depth 20

  by_message_kind-Keeps : (k : MessageKind) → Keeps (by_message_kind parts k)
  by_message_kind-Keeps update =
      search (keeping, framebuffer_update-Keeps, update_done-Keeps) depth 20
  by_message_kind-Keeps colour_map = failing-Keeps
  by_message_kind-Keeps bell_rung = search keeping depth 20
  by_message_kind-Keeps cut_text = handle_server_cut_text-Keeps
  by_message_kind-Keeps end_of_updates =
      then-Keeps _ _ (modify-Keeps _)
        (then-Keeps _ _ (update_continuous_updates-Keeps parts keep) (pure-Keeps true))
  by_message_kind-Keeps fence = handle_server_fence_msg-Keeps
  by_message_kind-Keeps xvp = handle_xvp_msg-Keeps
  by_message_kind-Keeps unexpected = search keeping depth 20

  pub normal_msg-Keeps : Keeps (normal_msg parts)
  unfolding normal_msg
  normal_msg-Keeps = search (keeping, message_type-Keeps, by_message_kind-Keeps) depth 20
