-- ===== src/Websock/Receive.antt =====
-- The receive queue of core/websock.js: `rQpeek8` to `rQwait`, `_expandCompactRQ`, `_recvMessage`.
use Prim.Native.Nat.{min, max}
use proxmox_self_service_por.Prelude.{
  ℕ, zero, suc, ◌+◌, ◌-◌, ◌*◌, Bool, true, false, Option, none, some, List, [], ◌++◌, ltb, ◌==◌,
  if◌then◌else◌, length,
}
use proxmox_self_service_por.Prelude.Int.{ℤ, pos, ◌+ℤ◌}
use proxmox_self_service_por.Js.Bytes.{Uint8Array, new_array, window, slice, set_bytes, copy_within}
use proxmox_self_service_por.Util.Int.{to_unsigned32bit, shift_left}
use proxmox_self_service_por.Websock.State.{
  Websock, cannot_backup, rq_exceeded, range_error, Outcome, done, raised, max_rq_grow_size,
}

-- `none` is undefined, past the array's end
unfoldable pub rq_peek8 : Websock → Option ℕ
rq_peek8 ws = if ltb ws.rq_i ws.rq.size then some (ws.rq.cell ws.rq_i) else none

unfoldable pub rq_skip_bytes : Websock → ℕ → Websock
rq_skip_bytes ws bytes = record ws { rq_i = ws.rq_i + bytes }

-- `this._rQ[i] << k`, where undefined shifts to 0
abbrev pub shifted_cell : Uint8Array → ℕ → ℕ → ℤ
shifted_cell a i k = if ltb i a.size then shift_left (a.cell i) k else pos 0

-- the loop of `_rQshift`, over the bytes left
unfoldable pub rq_shift_loop : Websock → ℕ → ℤ → ℤ × Websock
rq_shift_loop ws zero res = (res, ws)
rq_shift_loop ws (suc byte) res =
    rq_shift_loop (record ws { rq_i = ws.rq_i + 1 }) byte
      (res +ℤ shifted_cell ws.rq ws.rq_i (byte * 8))

unfoldable pub rq_shift : Websock → ℕ → ℕ × Websock
unfolding rq_shift_loop
rq_shift ws bytes = let (res, ws') = rq_shift_loop ws bytes (pos 0) in (to_unsigned32bit res, ws')

unfoldable pub rq_shift8 : Websock → ℕ × Websock
unfolding rq_shift
rq_shift8 ws = rq_shift ws 1

unfoldable pub rq_shift16 : Websock → ℕ × Websock
unfolding rq_shift
rq_shift16 ws = rq_shift ws 2

unfoldable pub rq_shift32 : Websock → ℕ × Websock
unfolding rq_shift
rq_shift32 ws = rq_shift ws 4

-- The view and the copy have the same contents at the time of the call.
unfoldable pub rq_shift_bytes : Websock → ℕ → List ℕ × Websock
rq_shift_bytes ws len =
    let ws' = record ws { rq_i = ws.rq_i + len } in (slice ws'.rq (ws'.rq_i - len) ws'.rq_i, ws')

-- the loop of `rQshiftStr` from `i` on; a round takes up to 4096 bytes, so `len` rounds are enough
unfoldable pub rq_shift_str_loop : ℕ → Websock → ℕ → ℕ → List ℕ × Websock
unfolding rq_shift_bytes
rq_shift_str_loop zero ws len i = ([], ws)
rq_shift_str_loop (suc fuel) ws len i =
    let (part, ws') = rq_shift_bytes ws (min 4096 (len - i)) in
    let rest = rq_shift_str_loop fuel ws' len (i + 4096) in
    if ltb i len then (part ++ rest.0, rest.1) else ([], ws)

-- The string is the list of its character codes.
unfoldable pub rq_shift_str : Websock → ℕ → List ℕ × Websock
unfolding rq_shift_str_loop
rq_shift_str ws len = rq_shift_str_loop len ws len 0

-- `target` is a typed array; the view of the queue and the write into `target` can be out of range.
unfoldable pub rq_shift_to : Websock → Uint8Array → ℕ → Outcome Uint8Array
rq_shift_to ws target len =
    if ltb ws.rq.size (ws.rq_i + len)
    then raised range_error ws
    else elim (set_bytes target (window ws.rq.cell ws.rq_i len) 0) [
      | none ↦ raised range_error ws
      | some target' ↦ done target' (record ws { rq_i = ws.rq_i + len })
    ]

unfoldable pub rq_peek_bytes : Websock → ℕ → List ℕ
rq_peek_bytes ws len = slice ws.rq ws.rq_i (ws.rq_i + len)

-- A `goback` of 0 stands for one left out: both are falsy.
unfoldable pub rq_wait : Websock → ℕ → ℕ → Outcome Bool
rq_wait ws num goback =
    if ltb ws.rq_len (ws.rq_i + num)
    then (if goback == 0
        then done true ws
        else if ltb ws.rq_i goback
        then raised cannot_backup ws
        else done true (record ws { rq_i = ws.rq_i - goback }))
    else done false ws

-- `requiredBufferSize`
abbrev pub required_size : Websock → ℕ → ℕ
required_size ws min_fit = (ws.rq_len - ws.rq_i + min_fit) * 8

-- the size before it is held to the maximum
abbrev pub grown_size : Websock → ℕ → ℕ
grown_size ws min_fit =
    if ltb ws.rq_buffer_size (required_size ws min_fit)
    then max (ws.rq_buffer_size * 2) (required_size ws min_fit)
    else ws.rq_buffer_size

-- The move of the unread bytes to the front; `size` is `_rQbufferSize` by now.
unfoldable pub move_unread : Websock → Bool → ℕ → Outcome (Unit {0})
move_unread ws resize_needed size =
    if resize_needed
    then elim (set_bytes (new_array size) (window ws.rq.cell ws.rq_i (ws.rq_len - ws.rq_i)) 0) [
      | none ↦ raised range_error (record ws { rq_buffer_size = size; rq = new_array size })
      | some a ↦
          done tt
            (record ws { rq_buffer_size = size; rq = a; rq_len = ws.rq_len - ws.rq_i; rq_i = 0 })
    ]
    else done tt (record ws {
      rq_buffer_size = size;
      rq = copy_within ws.rq ws.rq_i ws.rq_len;
      rq_len = ws.rq_len - ws.rq_i;
      rq_i = 0;
    })

unfoldable pub expand_compact_rq : Websock → ℕ → Outcome (Unit {0})
expand_compact_rq ws min_fit =
    let resize_needed = ltb ws.rq_buffer_size (required_size ws min_fit) in
    let size = grown_size ws min_fit in
    if ltb max_rq_grow_size size
    then (if ltb max_rq_grow_size (ws.rq_len - ws.rq_i + min_fit)
        then raised rq_exceeded (record ws { rq_buffer_size = max_rq_grow_size })
        else move_unread ws resize_needed max_rq_grow_size)
    else move_unread ws resize_needed size

-- the reset of a queue whose data has all been read
abbrev pub reset_if_read : Websock → Websock
reset_if_read ws = if ws.rq_len == ws.rq_i then record ws { rq_len = 0; rq_i = 0 } else ws

-- `this._rQ.set(u8, this._rQlen)` and what follows; the value says if the `message` handler runs
unfoldable pub append_message : Websock → List ℕ → Outcome Bool
append_message ws u8 = elim (set_bytes ws.rq u8 ws.rq_len) [
  | none ↦ raised range_error ws
  | some a ↦
      let ws' = record ws { rq = a; rq_len = ws.rq_len + length u8 } in
      done (ltb ws'.rq_i ws'.rq_len) ws'
]

unfoldable pub recv_message : Websock → List ℕ → Outcome Bool
recv_message ws u8 =
    let ws₀ = reset_if_read ws in
    if ltb ws₀.rq_buffer_size (ws₀.rq_len + length u8)
    then elim (expand_compact_rq ws₀ (length u8)) [
      | raised e ws' ↦ raised e ws'
      | done _ ws' ↦ append_message ws' u8
    ]
    else append_message ws₀ u8
