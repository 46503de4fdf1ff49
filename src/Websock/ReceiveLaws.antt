-- ===== src/Websock/ReceiveLaws.antt =====
-- `_recvMessage` of core/websock.js keeps the unread bytes in order, whatever it moves or allocates.
use Prim.Native.Nat.{min}
use mathlib.Core.Path.{subst}
use native.Mathlib.Nat.{zero-add, add_comm}
use proxmox_self_service_por.Prelude.{
  ℕ, ◌+◌, ◌-◌, ◌≤◌, ◌≡◌, refl, sym, ap, ◌∙◌, inl, inr, Bool, true, false, none, some, List, ◌++◌,
  arith, ltb, ◌==◌, length, length-append, if◌then◌else◌, Bool-cases,
}
use proxmox_self_service_por.Js.Bytes.{
  Uint8Array, new_array, window, set_bytes, overlay, copy_within, length-window, window_ext,
  window_split, window-overlay, window-overlay_before,
}
use proxmox_self_service_por.Websock.State.{
  Websock, range_error, Outcome, done, raised, max_rq_grow_size,
}
use proxmox_self_service_por.Websock.Receive.{
  required_size, grown_size, move_unread, expand_compact_rq, reset_if_read, append_message,
  recv_message,
}
use proxmox_self_service_por.Websock.Unread.{unread, IsValid, SameRest, length-unread, Received}

abbrev Moved : Websock → ℕ → Outcome (Unit {0}) → Type 0
Moved ws size (raised e ws') = ⊥
Moved ws size (done _ ws') =
    (unread ws' ≡ unread ws)
    × (ws'.rq_i ≡ 0)
    × (ws'.rq_len ≡ ws.rq_len - ws.rq_i)
    × (ws'.rq_buffer_size ≡ size)
    × IsValid ws'
    × SameRest ws ws'

set_bytes_fits :
    (a : Uint8Array) (xs : List ℕ) (off : ℕ)
    → off + length xs ≤ a.size
    → set_bytes a xs off ≡ some (record a { cell = overlay a.cell xs off })
set_bytes_fits a xs off h = ground arith

unread-append :
    (ws : Websock) (u8 : List ℕ)
    → ws.rq_i ≤ ws.rq_len
    → window (overlay ws.rq.cell u8 ws.rq_len) ws.rq_i (ws.rq_len + length u8 - ws.rq_i)
      ≡ unread ws ++ u8
unread-append ws u8 h =
    let n = ws.rq_len - ws.rq_i in
    let f = overlay ws.rq.cell u8 ws.rq_len in
    let e : ws.rq_len + length u8 - ws.rq_i ≡ n + length u8 = omega arith in
    let e' : ws.rq_i + n ≡ ws.rq_len = omega arith in
    rw e (
      rw (
        window_split f ws.rq_i n (length u8),
        e',
        window-overlay ws.rq.cell u8 ws.rq_len,
        window-overlay_before ws.rq.cell u8 ws.rq_len ws.rq_i n (omega arith),
      ))

same_rest :
    (ws : Websock) (i n size : ℕ) (a : Uint8Array)
    → SameRest ws (record ws { rq_i = i; rq_len = n; rq_buffer_size = size; rq = a })
same_rest ws i n size a = record {
  same_channel = refl;
  same_sq_size = refl;
  same_sq_len = refl;
  same_sq = refl;
  same_handlers = refl;
}

append_message-Received :
    (ws : Websock) (u8 : List ℕ)
    → IsValid ws
    → ws.rq_len + length u8 ≤ ws.rq_buffer_size
    → Received ws u8 (append_message ws u8)
unfolding append_message
append_message-Received ws u8 v h =
    subst
      (λ o. Received ws u8 (elim o [
        | none ↦ raised range_error ws
        | some a ↦
            done (ltb ws.rq_i (ws.rq_len + length u8))
              (record ws { rq = a; rq_len = ws.rq_len + length u8 })
      ]))
      (sym (set_bytes_fits ws.rq u8 ws.rq_len (omega (arith, v))))
      (
        unread-append ws u8 v.read_le,
        ground (arith, length-append (unread ws) u8, length-unread ws),
        omega (arith, v),
        same_rest ws ws.rq_i (ws.rq_len + length u8) ws.rq_buffer_size
            (record ws.rq { cell = overlay ws.rq.cell u8 ws.rq_len }),
      )

unread-front : (f : ℕ → ℕ) (i n : ℕ) → window (overlay (λ _. 0) (window f i n) 0) 0 n ≡ window f i n
unread-front f i n = rw (length-window f i n) at (window-overlay (λ _. 0) (window f i n) 0)

window-sub_zero : (f : ℕ → ℕ) (n : ℕ) → window f 0 (n - 0) ≡ window f 0 n
window-sub_zero f n = ap (window f 0) (omega arith)

-- With room for the unread bytes the move keeps them, in the new array or in the old one.
move_unread-Moved :
    (ws : Websock) (resize : Bool) (size : ℕ)
    → IsValid ws
    → ws.rq_len - ws.rq_i ≤ size
    → size ≤ max_rq_grow_size
    → (resize ≡ false → size ≡ ws.rq_buffer_size)
    → Moved ws size (move_unread ws resize size)
unfolding move_unread
move_unread-Moved ws false size v h most same =
    let same' : size ≡ ws.rq_buffer_size = same refl in
    (
      window-sub_zero (copy_within ws.rq ws.rq_i ws.rq_len).cell (ws.rq_len - ws.rq_i)
          ∙ window_ext (copy_within ws.rq ws.rq_i ws.rq_len).cell ws.rq.cell 0 ws.rq_i
              (ws.rq_len - ws.rq_i)
              (λ k lt. ground (arith, ap ws.rq.cell (add_comm k ws.rq_i), zero-add k)),
      refl,
      refl,
      refl,
      omega arith,
      same_rest ws 0 (ws.rq_len - ws.rq_i) size (copy_within ws.rq ws.rq_i ws.rq_len),
    )
move_unread-Moved ws true size v h most same =
    let moved = window ws.rq.cell ws.rq_i (ws.rq_len - ws.rq_i) in
    let e : length moved ≡ ws.rq_len - ws.rq_i = length-unread ws in
    subst
      (λ o. Moved ws size (elim o [
        | none ↦ raised range_error (record ws { rq_buffer_size = size; rq = new_array size })
        | some a ↦
            done tt
              (record ws { rq_buffer_size = size; rq = a; rq_len = ws.rq_len - ws.rq_i; rq_i = 0 })
      ]))
      (sym (set_bytes_fits (new_array size) moved 0 (omega (arith, e))))
      (
        window-sub_zero (overlay (λ _. 0) moved 0) (ws.rq_len - ws.rq_i)
            ∙ unread-front ws.rq.cell ws.rq_i (ws.rq_len - ws.rq_i),
        refl,
        refl,
        refl,
        omega arith,
        same_rest ws 0 (ws.rq_len - ws.rq_i) size
            (record { size = size; cell = overlay (λ _. 0) moved 0 }),
      )

abbrev final_size : Websock → ℕ → ℕ
final_size ws min_fit = min (grown_size ws min_fit) max_rq_grow_size

expand_eq_move :
    (ws : Websock) (min_fit : ℕ)
    → ws.rq_len - ws.rq_i + min_fit ≤ max_rq_grow_size
    → expand_compact_rq ws min_fit
      ≡ move_unread ws (ltb ws.rq_buffer_size (required_size ws min_fit)) (final_size ws min_fit)
unfolding expand_compact_rq
expand_eq_move ws min_fit h = ground arith

final_size_fits :
    (ws : Websock) (min_fit : ℕ)
    → ws.rq_len - ws.rq_i + min_fit ≤ max_rq_grow_size
    → ws.rq_len - ws.rq_i + min_fit ≤ final_size ws min_fit
final_size_fits ws min_fit h = ground arith

final_size_same :
    (ws : Websock) (min_fit : ℕ)
    → IsValid ws
    → ltb ws.rq_buffer_size (required_size ws min_fit) ≡ false
    → final_size ws min_fit ≡ ws.rq_buffer_size
final_size_same ws min_fit v e = ground arith

-- Where the unread bytes and the new ones fit under the maximum, there is room for both.
expand_compact_rq-Moved :
    (ws : Websock) (min_fit : ℕ)
    → IsValid ws
    → ws.rq_len - ws.rq_i + min_fit ≤ max_rq_grow_size
    → Moved ws (final_size ws min_fit) (expand_compact_rq ws min_fit)
expand_compact_rq-Moved ws min_fit v h =
    rw (expand_eq_move ws min_fit h, Moved)
      (move_unread-Moved ws _ (final_size ws min_fit) v
        (omega (arith, final_size_fits ws min_fit h)) (omega arith) (final_size_same ws min_fit v))

SameRest-trans : {a b c : Websock} → SameRest a b → SameRest b c → SameRest a c
SameRest-trans p q = record {
  same_channel = q.same_channel ∙ p.same_channel;
  same_sq_size = q.same_sq_size ∙ p.same_sq_size;
  same_sq_len = q.same_sq_len ∙ p.same_sq_len;
  same_sq = q.same_sq ∙ p.same_sq;
  same_handlers = q.same_handlers ∙ p.same_handlers;
}

-- A message taken in after a step that keeps the unread bytes is taken in from the start.
Received-after :
    {ws ws' : Websock} (u8 : List ℕ) (o : Outcome Bool)
    → unread ws' ≡ unread ws
    → SameRest ws ws'
    → Received ws' u8 o
    → Received ws u8 o
Received-after u8 (raised e w) q s r = r
Received-after u8 (done fires w) q s r = (
  r.0 ∙ ap (λ t. t ++ u8) q,
  r.1 ∙ ap (λ t. ltb 0 (length (t ++ u8))) q,
  r.2,
  SameRest-trans s r.3,
)

append_after_move :
    (ws : Websock) (u8 : List ℕ) (size : ℕ) (o : Outcome (Unit {0}))
    → ws.rq_len - ws.rq_i + length u8 ≤ size
    → Moved ws size o
    → Received ws u8 (elim o [ raised e ws' ↦ raised e ws' | done _ ws' ↦ append_message ws' u8 ])
append_after_move ws u8 size (raised e ws') h m = absurd m
append_after_move ws u8 size (done _ ws') h m =
    Received-after u8 (append_message ws' u8) m.0 m.5
      (append_message-Received ws' u8 m.4 (omega arith))

reset_if_read_lem :
    (ws : Websock)
    → IsValid ws
    → (unread (reset_if_read ws) ≡ unread ws)
      × IsValid (reset_if_read ws)
      × SameRest ws (reset_if_read ws)
reset_if_read_lem ws v = elim (Bool-cases (ws.rq_len == ws.rq_i)) [
  | inl e ↦
      let none_left : ws.rq_len - ws.rq_i ≡ 0 = ground arith in
      rw e (
        ap (window ws.rq.cell ws.rq_i) (sym none_left),
        omega arith,
        same_rest ws 0 0 ws.rq_buffer_size ws.rq,
      )
  | inr e ↦ rw e (refl, v, same_rest ws ws.rq_i ws.rq_len ws.rq_buffer_size ws.rq)
]

recv_message_from :
    (ws : Websock) (u8 : List ℕ)
    → IsValid ws
    → ws.rq_len - ws.rq_i + length u8 ≤ max_rq_grow_size
    → Received ws u8 (
        if ltb ws.rq_buffer_size (ws.rq_len + length u8)
        then elim (expand_compact_rq ws (length u8)) [
          | raised e ws' ↦ raised e ws'
          | done _ ws' ↦ append_message ws' u8
        ]
        else append_message ws u8)
recv_message_from ws u8 v h = elim (Bool-cases (ltb ws.rq_buffer_size (ws.rq_len + length u8))) [
  | inl e ↦
      rw (e, Received)
        (append_after_move ws u8 (final_size ws (length u8)) (expand_compact_rq ws (length u8))
          (final_size_fits ws (length u8) h) (expand_compact_rq-Moved ws (length u8) v h))
  | inr e ↦ rw (e, Received) (append_message-Received ws u8 v (ground arith))
]

-- `_recvMessage` with a message that fits under the maximum beside the unread bytes: it raises
-- nothing, puts the message behind the unread bytes, tells whether any byte is unread, and leaves a
-- valid queue and all other fields as they were.
pub recv_message-Received :
    (ws : Websock) (u8 : List ℕ)
    → IsValid ws
    → length (unread ws) + length u8 ≤ max_rq_grow_size
    → Received ws u8 (recv_message ws u8)
unfolding recv_message
recv_message-Received ws u8 v h =
    let (same, valid, rest) = reset_if_read_lem ws v in
    let ws₀ = reset_if_read ws in
    Received-after u8 (recv_message ws u8) same rest (
      recv_message_from ws₀ u8 valid
        (omega (arith, length-unread ws₀, length-unread ws, ap (length {0}) same)))
