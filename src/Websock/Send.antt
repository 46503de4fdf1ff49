-- ===== src/Websock/Send.antt =====
-- The send queue of core/websock.js: `sQpush8` to `sQpushBytes`, `flush`, `_sQensureSpace`.
use Prim.Native.Nat.{min}
use proxmox_self_service_por.Prelude.{
  ℕ, zero, suc, ◌+◌, ◌-◌, ◌/◌, ◌%◌, ◌^◌, true, false, ◌&&◌, Option, none, some, List, [], ◌∷◌, ◌++◌,
  map, ltb, if◌then◌else◌, length, take, drop,
}
use proxmox_self_service_por.Prelude.Int.{ℤ}
use proxmox_self_service_por.Js.Bytes.{window, store, set_bytes}
use proxmox_self_service_por.Util.Int.{to_unsigned32bit}
use proxmox_self_service_por.Websock.State.{
  RawChannel, Websock, range_error, Outcome, done, raised, ready_state, is_open_state,
}

-- Steps in order: what is raised ends them.
infixl 5 ◌>>=◌ ◌>>◌
abbrev pub ◌>>=◌ :
    {A B : Type 0} → (Websock → Outcome A) → (A → Websock → Outcome B) → Websock → Outcome B
◌>>=◌ m f ws = elim (m ws) [ done a ws' ↦ f a ws' | raised e ws' ↦ raised e ws' ]

abbrev pub ◌>>◌ :
    {A : Type 0} → (Websock → Outcome (Unit {0})) → (Websock → Outcome A) → Websock → Outcome A
◌>>◌ m k ws = elim (m ws) [ done _ ws' ↦ k ws' | raised e ws' ↦ raised e ws' ]

abbrev pub Step : Type 0
Step = Websock → Outcome (Unit {0})

-- `websocket.send(new Uint8Array(sQ.buffer, 0, sQlen))` and the reset; the view may be out of range
unfoldable pub send_pending : Websock → RawChannel → Outcome (Unit {0})
send_pending ws c =
    if ltb ws.sq.size ws.sq_len
    then raised range_error ws
    else done tt (record ws {
      websocket = some (record c { sent = c.sent ++ (window ws.sq.cell 0 ws.sq_len ∷ []) });
      sq_len = 0;
    })

unfoldable pub flush : Step
flush ws = elim ws.websocket [
  | none ↦ done tt ws
  | some c ↦
      if ltb 0 ws.sq_len && is_open_state (ready_state ws) then send_pending ws c else done tt ws
]

unfoldable pub sq_ensure_space : ℕ → Step
sq_ensure_space bytes ws =
    if ltb ws.sq_buffer_size (ws.sq_len + bytes) then flush ws else done tt ws

-- `this._sQ[this._sQlen++] = num`
unfoldable pub put : ℕ → Step
put num ws = done tt (record ws { sq = store ws.sq ws.sq_len num; sq_len = ws.sq_len + 1 })

-- `(num >> k) & 0xff`
abbrev pub byte_at : ℤ → ℕ → ℕ
byte_at num k = to_unsigned32bit num / 2 ^ k % 256

unfoldable pub sq_push8 : ℤ → Step
sq_push8 num = do sq_ensure_space 1; put (byte_at num 0)

unfoldable pub sq_push16 : ℤ → Step
sq_push16 num = do sq_ensure_space 2; put (byte_at num 8); put (byte_at num 0)

unfoldable pub sq_push32 : ℤ → Step
sq_push32 num = do
  sq_ensure_space 4
  put (byte_at num 24)
  put (byte_at num 16)
  put (byte_at num 8)
  put (byte_at num 0)

-- a chunk of `bytes` from `offset` on; the value is the new offset
unfoldable pub push_chunk : List ℕ → ℕ → Websock → Outcome ℕ
push_chunk bytes offset ws =
    let chunk_size = min (ws.sq_buffer_size - ws.sq_len) (length bytes - offset) in
    elim (set_bytes ws.sq (take chunk_size (drop offset bytes)) ws.sq_len) [
      | none ↦ raised range_error ws
      | some a ↦ done (offset + chunk_size) (record ws { sq = a; sq_len = ws.sq_len + chunk_size })
    ]

-- The loop of `sQpushBytes`. Each round that makes progress takes at least one byte; `none` means
-- that the rounds ran out.
unfoldable pub push_loop : ℕ → List ℕ → ℕ → Websock → Option (Outcome (Unit {0}))
push_loop zero bytes offset ws = none
push_loop (suc fuel) bytes offset ws = elim (ltb offset (length bytes)) [
  | false ↦ some (done tt ws)
  | true ↦ elim ((sq_ensure_space 1 >> push_chunk bytes offset) ws) [
    | raised e ws' ↦ some (raised e ws')
    | done offset' ws' ↦ push_loop fuel bytes offset' ws'
  ]
]

unfoldable pub sq_push_bytes : List ℕ → Websock → Option (Outcome (Unit {0}))
sq_push_bytes bytes ws = push_loop (length bytes + 1) bytes 0 ws

-- A string is the list of its character codes, which the array reduces to bytes.
unfoldable pub sq_push_string : List ℕ → Websock → Option (Outcome (Unit {0}))
sq_push_string str ws = sq_push_bytes (map (λ c. c % 256) str) ws
