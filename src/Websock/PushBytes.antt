-- ===== src/Websock/PushBytes.antt =====
-- `sQpushBytes` of core/websock.js: the loop over the chunks that fit into the send buffer.
use Prim.Native.Nat.{min}
use mathlib.Core.Path.{subst}
use mathlib.Core.List.{append_assoc, append-nil}
use native.Mathlib.Nat.{zero-add}
use proxmox_self_service_por.Prelude.{
  ℕ, zero, suc, ◌+◌, ◌-◌, ◌≤◌, ◌<◌, ◌≡◌, ◌≢◌, refl, sym, ap, ◌∙◌, inl, inr, true, false, Option,
  none, some, List, [], ◌∷◌, ◌++◌, arith, ltb, length, take, drop, length-take, length-drop,
  take-append-drop, drop-drop, Bool-cases,
}
use proxmox_self_service_por.Js.Bytes.{
  window, overlay, window_split, window-overlay, window-overlay_before,
}
use proxmox_self_service_por.Websock.State.{
  ReadyState, Websock, is_open, is_open_state, Outcome, done, raised, ready_state,
}
use proxmox_self_service_por.Websock.Send.{
  ◌>>◌, flush, sq_ensure_space, push_chunk, push_loop, sq_push_bytes,
}
use proxmox_self_service_por.Websock.SendLaws.{
  wire, sent_bytes, IsReady, Sent, Room, sq_ensure_space-Cleared,
}
use proxmox_self_service_por.Websock.PushLaws.{push_chunk_lem, Sent-after}

drop_all : (n : ℕ) (xs : List ℕ) → length xs ≤ n → drop n xs ≡ []
drop_all zero [] h = refl
drop_all zero (x ∷ xs) h = absurd (omega arith)
drop_all (suc n) [] h = refl
drop_all (suc n) (x ∷ xs) h = drop_all n xs (omega arith)

overlay_extends :
    (f : ℕ → ℕ) (n c : ℕ) (xs : List ℕ)
    → length xs ≡ c
    → window (overlay f xs n) 0 (n + c) ≡ window f 0 n ++ xs
overlay_extends f n c xs e =
    rw (← e, window_split, zero-add, window-overlay, window-overlay_before f xs n 0 n (omega arith))

-- A round went on to a later offset, and appended the bytes between.
abbrev Advanced : Websock → List ℕ → ℕ → Outcome ℕ → Type 0
Advanced ws bytes offset (raised e w) = ⊥
Advanced ws bytes offset (done offset' w) =
    (offset < offset')
    × (wire w ≡ wire ws ++ take (offset' - offset) (drop offset bytes))
    × IsReady w

push_chunk-Advanced :
    (bytes : List ℕ) (offset : ℕ) (ws : Websock)
    → IsReady ws
    → ws.sq_len + 1 ≤ ws.sq_buffer_size
    → offset < length bytes
    → Advanced ws bytes offset (push_chunk bytes offset ws)
unfolding ready_state
push_chunk-Advanced bytes offset ws r room h =
    let c = min (ws.sq_buffer_size - ws.sq_len) (length bytes - offset) in
    let chunk = take c (drop offset bytes) in
    let size : length chunk ≡ c =
      omega (arith, length-take c (drop offset bytes), length-drop offset bytes) in
    let back : offset + c - offset ≡ c = omega arith in
    rw (push_chunk_lem bytes offset ws r, Advanced, back)
      (
        omega arith,
        ap (λ t. sent_bytes ws.websocket ++ t) (overlay_extends ws.sq.cell ws.sq_len c chunk size)
            ∙ sym (append_assoc (sent_bytes ws.websocket) (window ws.sq.cell 0 ws.sq_len) chunk),
        record {
          channel_open = r.channel_open;
          within = omega arith;
          sized = r.sized;
          roomy = r.roomy;
        },
      )

round-Advanced :
    (bytes : List ℕ) (offset : ℕ) (ws : Websock) (o : Outcome (Unit {0}))
    → Sent ws [] o × Room 1 o
    → offset < length bytes
    → Advanced ws bytes offset
        (elim o [ done _ w ↦ push_chunk bytes offset w | raised e w ↦ raised e w ])
round-Advanced bytes offset ws (raised e w) s h = absurd s.0
round-Advanced bytes offset ws (done _ w) s h =
    after (push_chunk bytes offset w) (push_chunk-Advanced bytes offset w s.0.1 s.1 h)
  where
    after : (o : Outcome ℕ) → Advanced w bytes offset o → Advanced ws bytes offset o
    after (raised e w') a = a
    after (done n w') a = (
      a.0,
      a.1 ∙ ap (λ t. t ++ take (n - offset) (drop offset bytes)) (s.0.0 ∙ append-nil (wire ws)),
      a.2,
    )

glue :
    (bytes : List ℕ) (offset n : ℕ)
    → offset < n
    → take (n - offset) (drop offset bytes) ++ drop n bytes ≡ drop offset bytes
glue bytes offset n h =
    let e : n ≡ offset + (n - offset) = omega arith in
    ap (λ t. take (n - offset) (drop offset bytes) ++ t)
      (ap (λ m. drop m bytes) e ∙ sym (drop-drop (n - offset) offset bytes))
    ∙ take-append-drop (n - offset) (drop offset bytes)

-- The loop with enough rounds ends, and has appended all that was left.
push_loop-Sent :
    (fuel : ℕ) (bytes : List ℕ) (offset : ℕ) (ws : Websock)
    → IsReady ws
    → length bytes - offset < fuel
    → (o : Outcome (Unit {0})) × (push_loop fuel bytes offset ws ≡ some o)
      × Sent ws (drop offset bytes) o
unfolding push_loop
push_loop-Sent zero bytes offset ws r h = elim h [ ]
push_loop-Sent (suc fuel) bytes offset ws r h = elim (Bool-cases (ltb offset (length bytes))) [
  | inr over ↦ (
    done tt ws,
    rw (over, push_loop),
    (sym (ap (λ t. wire ws ++ t) (drop_all offset bytes (ground arith)) ∙ append-nil (wire ws)), r),
  )
  | inl more ↦
      rw (more, push_loop)
        (next ((sq_ensure_space 1 >> push_chunk bytes offset) ws)
          (round-Advanced bytes offset ws (sq_ensure_space 1 ws)
            (sq_ensure_space-Cleared 1 ws r (omega (arith, r))) (ground arith))
          (λ n w lt r'. push_loop-Sent fuel bytes n w r' (ground arith)))
]
  where
    Ends : Option (Outcome (Unit {0})) → Type 0
    Ends run = (o : Outcome (Unit {0})) × (run ≡ some o) × Sent ws (drop offset bytes) o

    next :
        (o : Outcome ℕ)
        → Advanced ws bytes offset o
        → ((n : ℕ) (w : Websock)
            → offset < n
            → IsReady w
            → (o' : Outcome (Unit {0})) × (push_loop fuel bytes n w ≡ some o')
              × Sent w (drop n bytes) o')
        → Ends (elim o [ raised e w ↦ some (raised e w) | done n w ↦ push_loop fuel bytes n w ])
    next (raised e w) a ih = absurd a
    next (done n w) a ih =
        let (o, e, s) = ih n w a.0 a.2 in
        (
          o,
          e,
          subst (λ t. Sent ws t o) (glue bytes offset n a.0)
              (Sent-after ws w (take (n - offset) (drop offset bytes)) (drop n bytes) o a.1 s),
        )

-- `sQpushBytes` on an open channel returns, raises nothing, and appends all the bytes in order to those
-- given so far, in however many chunks: what the channel was sent followed by what still waits in the
-- send queue, for the next flush, is what it was before followed by the bytes.
pub sq_push_bytes-Sent :
    (bytes : List ℕ) (ws : Websock)
    → IsReady ws
    → (o : Outcome (Unit {0})) × (sq_push_bytes bytes ws ≡ some o) × Sent ws bytes o
unfolding sq_push_bytes
sq_push_bytes-Sent bytes ws r = push_loop-Sent (length bytes + 1) bytes 0 ws r (omega arith)

-- The channel is not open, and the send buffer is full.
pub record IsStuck (ws : Websock) : Type 0 where
  pub not_open : ready_state ws ≢ is_open
  pub full : ws.sq_len ≡ ws.sq_buffer_size
  pub sized : ws.sq_buffer_size ≡ ws.sq.size

is_open_state-false : (s : ReadyState) → s ≢ is_open → is_open_state s ≡ false
is_open_state-false s h = ground arith

flush_not_open : (ws : Websock) → is_open_state (ready_state ws) ≡ false → flush ws ≡ done tt ws
unfolding flush
flush_not_open ws h = ground arith

-- what a full buffer takes of the bytes: nothing
abbrev room_left : List ℕ → ℕ → Websock → ℕ
room_left bytes offset ws = min (ws.sq_buffer_size - ws.sq_len) (length bytes - offset)

stuck_after : List ℕ → ℕ → Websock → Websock
stuck_after bytes offset ws =
    let c = room_left bytes offset ws in
    record ws {
      sq = record ws.sq { cell = overlay ws.sq.cell (take c (drop offset bytes)) ws.sq_len };
      sq_len = ws.sq_len + c;
    }

stuck_space : (ws : Websock) → IsStuck ws → sq_ensure_space 1 ws ≡ done tt ws
unfolding sq_ensure_space
stuck_space ws s =
    ground (arith, flush_not_open ws (is_open_state-false (ready_state ws) s.not_open))

stuck_chunk :
    (bytes : List ℕ) (offset : ℕ) (ws : Websock)
    → IsStuck ws
    → push_chunk bytes offset ws
      ≡ done (offset + room_left bytes offset ws) (stuck_after bytes offset ws)
unfolding push_chunk stuck_after
stuck_chunk bytes offset ws s =
    ground (arith, length-take (room_left bytes offset ws) (drop offset bytes))

stuck_after-IsStuck :
    (bytes : List ℕ) (offset : ℕ) (ws : Websock)
    → IsStuck ws
    → IsStuck (stuck_after bytes offset ws)
unfolding stuck_after ready_state
stuck_after-IsStuck bytes offset ws s = record {
  not_open = s.not_open;
  full = omega arith;
  sized = s.sized;
}

-- `sQpushBytes` with bytes to push on a channel that is not open, at a full buffer, never returns:
-- no number of rounds is enough.
pub push_loop_stuck :
    (fuel : ℕ) (bytes : List ℕ) (offset : ℕ) (ws : Websock)
    → IsStuck ws
    → offset < length bytes
    → push_loop fuel bytes offset ws ≡ none
unfolding push_loop
push_loop_stuck zero bytes offset ws s h = refl
push_loop_stuck (suc fuel) bytes offset ws s h =
    let more : ltb offset (length bytes) ≡ true = ground arith in
    let same : offset + room_left bytes offset ws ≡ offset = omega arith in
    rw (more, push_loop)
      (rw (stuck_space ws s) (
        rw (stuck_chunk bytes offset ws s, same)
          (push_loop_stuck fuel bytes offset (stuck_after bytes offset ws)
            (stuck_after-IsStuck bytes offset ws s) h)))
