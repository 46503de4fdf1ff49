-- ===== src/Rfb/Session/Updates.antt =====
-- The server's messages in core/rfb.js: `_normalMsg`, `_framebufferUpdate`, `_handleRect` and the methods
-- they call.
use proxmox_self_service_por.Prelude.{
  ℕ, zero, suc, ◌-◌, Bool, true, false, Option, none, some, ◌==◌, if◌then◌else◌,
}
use proxmox_self_service_por.Prelude.Int.{ℤ, pos, negsuc}
use proxmox_self_service_por.Util.Int.{signed32}
use proxmox_self_service_por.Websock.Receive.{rq_shift8, rq_shift16, rq_shift32, rq_shift_str}
use proxmox_self_service_por.Rfb.Messages.{fb_update_request}
use proxmox_self_service_por.Display.Queue as Queue
use proxmox_self_service_por.Display.Queue.{same_ℤ, is_empty}
use proxmox_self_service_por.Display.Draw.{flip_display}
use proxmox_self_service_por.Rfb.Session.State.{
  bell, clipboard, Method, ◌>>=◌, ◌>>◌, pure, modify, asks, read, on_sock, dispatch, endless,
}
use proxmox_self_service_por.Rfb.Session.Connection.{failing}
use proxmox_self_service_por.Rfb.Session.Handshake.{Parts, wait, skip, unless}
use proxmox_self_service_por.Rfb.Session.Start.{resize, set_desktop_name, update_continuous_updates}
use proxmox_self_service_por.Rfb.Session.Notices.{
  handle_led_event, handle_server_fence_msg, handle_xvp_msg,
}

-- a rectangle's header
abbrev pub read_rect_header : Method (Unit {0})
read_rect_header = do
  x ← read rq_shift16
  y ← read rq_shift16
  w ← read rq_shift16
  h ← read rq_shift16
  encoding ← read rq_shift32
  modify (λ r. record r {
    fbu = record r.fbu { x = x; y = y; width = w; height = h; encoding = some (signed32 encoding) };
  })

-- the rectangle is done
abbrev pub next_rect : Method (Unit {0})
next_rect =
    modify (λ r. record r { fbu = record r.fbu { rects = r.fbu.rects - 1; encoding = none } })

-- the cases of the switch in `_handleRect`
pub data RectKind : Type 0 where
  last_rect vmware_cursor cursor qemu_key_event desktop_name desktop_size : RectKind
  extended_desktop_size extended_mouse_buttons qemu_led_event data_rect : RectKind

abbrev pub rect_kind : ℤ → RectKind
rect_kind e =
    if same_ℤ e (negsuc 223)
    then last_rect
    else if same_ℤ e (pos 1464686180)
    then vmware_cursor
    else if same_ℤ e (negsuc 238)
    then cursor
    else if same_ℤ e (negsuc 257)
    then qemu_key_event
    else if same_ℤ e (negsuc 306)
    then desktop_name
    else if same_ℤ e (negsuc 222)
    then desktop_size
    else if same_ℤ e (negsuc 307)
    then extended_desktop_size
    else if same_ℤ e (negsuc 315)
    then extended_mouse_buttons
    else if same_ℤ e (negsuc 260)
    then qemu_led_event
    else data_rect

-- the cases of the switch in `_normalMsg`
pub data MessageKind : Type 0 where
  update colour_map bell_rung cut_text end_of_updates fence xvp unexpected : MessageKind

abbrev pub message_kind : ℕ → MessageKind
message_kind type =
    if type == 0
    then update
    else if type == 1
    then colour_map
    else if type == 2
    then bell_rung
    else if type == 3
    then cut_text
    else if type == 150
    then end_of_updates
    else if type == 248
    then fence
    else if type == 250
    then xvp
    else unexpected

module _ (parts : Parts) where
  -- `_handleDesktopName`
  abbrev pub read_desktop_name : ℕ → Method Bool
  read_desktop_name name_length = do
    short ← wait name_length 4
    unless short (
        read (λ ws. rq_shift_str ws name_length)
        >>= (λ name. set_desktop_name parts (parts.decode_utf8 name) >> pure true))

  unfoldable pub handle_desktop_name : Method Bool
  handle_desktop_name = do short ← wait 4 0; unless short (read rq_shift32 >>= read_desktop_name)

  -- the standard message, and the extended one, whose length is negative
  abbrev pub take_cut_text : ℤ → Method Bool
  take_cut_text (negsuc n) = parts.handle_extended_clipboard (suc n)
  take_cut_text (pos n) = do
    text ← read (λ ws. rq_shift_str ws n)
    view_only ← asks (λ r. r.view_only)
    if view_only then pure true else dispatch (clipboard text) >> pure true

  abbrev pub size_of : ℤ → ℕ
  size_of (pos n) = n
  size_of (negsuc n) = suc n

  abbrev pub wait_cut_text : ℤ → Method Bool
  wait_cut_text n = do short ← wait (size_of n) 8; unless short (take_cut_text n)

  unfoldable pub handle_server_cut_text : Method Bool
  handle_server_cut_text = do
    short ← wait 7 1
    unless short (skip 3 >> read rq_shift32 >>= (λ n. wait_cut_text (signed32 n)))

  abbrev pub resize_rect : Method Bool
  resize_rect = do fbu ← asks (λ r. r.fbu); resize parts fbu.width fbu.height; pure true

  -- At LastRect the count goes down to 0 when the rectangle is done.
  abbrev pub by_rect_kind : RectKind → Method Bool
  by_rect_kind last_rect = modify (λ r. record r { fbu = record r.fbu { rects = 1 } }) >> pure true
  by_rect_kind vmware_cursor = parts.handle_vmware_cursor
  by_rect_kind cursor = parts.handle_cursor
  by_rect_kind qemu_key_event =
      modify (λ r. record r { qemu_ext_key_event_supported = true }) >> pure true
  by_rect_kind desktop_name = handle_desktop_name
  by_rect_kind desktop_size = resize_rect
  by_rect_kind extended_desktop_size = parts.handle_extended_desktop_size
  by_rect_kind extended_mouse_buttons =
      modify (λ r. record r { extended_pointer_event_supported = true }) >> pure true
  by_rect_kind qemu_led_event = handle_led_event
  by_rect_kind data_rect = parts.handle_data_rect

  -- `null` is no case of the switch, so it goes to the decoders.
  abbrev pub handle_encoding : Option ℤ → Method Bool
  handle_encoding none = parts.handle_data_rect
  handle_encoding (some e) = by_rect_kind (rect_kind e)

  unfoldable pub handle_rect : Method Bool
  handle_rect = do encoding ← asks (λ r. r.fbu.encoding); handle_encoding encoding

  -- a round of the loop: the header, if it is not read yet, and the rectangle
  abbrev pub rect_header : Option ℤ → Method Bool
  rect_header (some e) = handle_rect
  rect_header none = do short ← wait 12 0; unless short (read_rect_header >> handle_rect)

  abbrev pub rect_round : Method Bool
  rect_round = do encoding ← asks (λ r. r.fbu.encoding); rect_header encoding

  abbrev pub finish_update : Method Bool
  finish_update = do modify (λ r. record r { display = flip_display r.display }); pure true

  abbrev pub after_rect : Method Bool → Bool → Method Bool
  after_rect rest ok = if ok then next_rect >> rest else pure false

  unfoldable pub more_rects : Method Bool → ℕ → Method Bool
  more_rects rest zero = finish_update
  more_rects rest (suc left) = rect_round >>= after_rect rest

  -- the loop, for as many rounds
  unfoldable pub rect_loop : ℕ → Method Bool
  rect_loop zero = λ r. if r.fbu.rects == 0 then finish_update r else endless r
  rect_loop (suc rounds) = asks (λ r. r.fbu.rects) >>= more_rects (rect_loop rounds)

  abbrev pub all_rects : Method Bool
  all_rects = rect_loop parts.rounds

  -- the wait for a display that is still drawing
  abbrev pub start_flushing : Method Bool
  start_flushing = do
    modify (λ r. record r { flushing = true; display = (Queue.flush r.display).1 })
    pure false

  abbrev pub read_update_header : Method Bool
  read_update_header = do
    skip 1
    rects ← read rq_shift16
    modify (λ r. record r { fbu = record r.fbu { rects = rects } })
    idle ← asks (λ r. is_empty r.display.render_q)
    if idle then all_rects else start_flushing

  abbrev pub update_from : ℕ → Method Bool
  update_from (suc n) = all_rects
  update_from zero = do short ← wait 3 1; unless short read_update_header

  unfoldable pub framebuffer_update : Method Bool
  framebuffer_update = do rects ← asks (λ r. r.fbu.rects); update_from rects

  abbrev pub request_next : Method (Unit {0})
  request_next = do
    w ← asks (λ r. r.fb_width)
    h ← asks (λ r. r.fb_height)
    on_sock (fb_update_request true (pos 0) (pos 0) (pos w) (pos h))

  abbrev pub update_done : Bool → Method Bool
  update_done false = pure false
  update_done true = do
    continuous ← asks (λ r. r.enabled_continuous_updates)
    (if continuous then pure tt else request_next) >> pure true

  -- EndOfContinuousUpdates; the first one tells that the server supports them
  abbrev pub end_of_continuous : Method Bool
  end_of_continuous = do
    modify (λ r. record r {
      supports_continuous_updates = true;
      enabled_continuous_updates = if r.supports_continuous_updates then false else true;
    })
    update_continuous_updates parts
    pure true

  abbrev pub by_message_kind : MessageKind → Method Bool
  by_message_kind update = framebuffer_update >>= update_done
  by_message_kind colour_map = failing
  by_message_kind bell_rung = dispatch bell >> pure true
  by_message_kind cut_text = handle_server_cut_text
  by_message_kind end_of_updates = end_of_continuous
  by_message_kind fence = handle_server_fence_msg
  by_message_kind xvp = handle_xvp_msg
  by_message_kind unexpected = failing >>= (λ _. pure true)

  abbrev pub message_type : ℕ → Method ℕ
  message_type zero = read rq_shift8
  message_type (suc n) = pure 0

  unfoldable pub normal_msg : Method Bool
  normal_msg = do
    rects ← asks (λ r. r.fbu.rects)
    type ← message_type rects
    by_message_kind (message_kind type)
