-- ===== src/Websock/Lifecycle.antt =====
-- The handlers and the connection of core/websock.js: `off`, `on`, `init`, `open`, `attach`, `close`.
use Prim.Native.String.{String}
use text.Mathlib.Text.{◌==◌ as str_eq}
use proxmox_self_service_por.Prelude.{
  ℕ, Bool, true, false, Option, none, some, List, [], ◌∷◌, ◌||◌, if◌then◌else◌,
}
use proxmox_self_service_por.Js.Bytes.{new_array}
use proxmox_self_service_por.Websock.State.{
  RawChannel, Event, message, opened, close, error, ReadyState, connecting, is_open, Websock,
  missing_property, Outcome, done, raised, ready_state,
}

abbrev same_event : Event → Event → Bool
same_event message message = true
same_event opened opened = true
same_event close close = true
same_event error error = true
same_event _ _ = false

unfoldable pub off : Event → Websock → Websock
off evt ws = record ws {
  event_handlers = λ e. if same_event evt e then none else ws.event_handlers e;
}

unfoldable pub on : Event → ℕ → Websock → Websock
on evt handler ws = record ws {
  event_handlers = λ e. if same_event evt e then some handler else ws.event_handlers e;
}

unfoldable pub allocate_buffers : Websock → Websock
allocate_buffers ws = record ws {
  rq = new_array ws.rq_buffer_size;
  sq = new_array ws.sq_buffer_size;
}

unfoldable pub init : Websock → Websock
unfolding allocate_buffers
init ws = record (allocate_buffers ws) { rq_i = 0; websocket = none }

-- `rawChannelProps`
abbrev pub raw_channel_props : List String
raw_channel_props =
    "send" ∷ "close" ∷ "binaryType" ∷ "onerror" ∷ "onmessage" ∷ "onopen" ∷ "protocol" ∷ "readyState"
    ∷ []

abbrev pub includes : List String → String → Bool
includes [] s = false
includes (p ∷ ps) s = str_eq p s || includes ps s

-- the first of the wanted properties that the channel lacks
abbrev pub first_missing : List String → List String → Option String
first_missing [] channel_props = none
first_missing (p ∷ ps) channel_props =
    if includes channel_props p then first_missing ps channel_props else some p

-- The names of the channel's properties are given beside it.
unfoldable pub attach : RawChannel → List String → Websock → Outcome (Unit {0})
unfolding init
attach raw_channel channel_props ws = elim (first_missing raw_channel_props channel_props) [
  | some p ↦ raised (missing_property p) (init ws)
  | none ↦
      done tt (record (init ws) { websocket = some (record raw_channel { on_message = true }) })
]

abbrev pub is_closable : ReadyState → Bool
is_closable connecting = true
is_closable is_open = true
is_closable _ = false

-- The method `close`.
unfoldable pub close_socket : Websock → Websock
close_socket ws = elim ws.websocket [
  | none ↦ ws
  | some c ↦ record ws {
    websocket = some (record c {
      close_called = if is_closable (ready_state ws) then true else c.close_called;
      on_message = false;
    });
  }
]
