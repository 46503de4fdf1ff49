-- ===== src/Websock/Session.antt =====
-- A reader of core/websock.js in any order of calls: messages come in, and the client waits and
-- reads. A Websock answers as the byte queue does.
use mathlib.Core.Path.{subst}
use proxmox_self_service_por.Prelude.{
  ℕ, ◌+◌, ◌≤◌, ◌≡◌, sym, ap, ◌∙◌, inl, inr, Bool, Option, some, List, [], ◌∷◌, ◌++◌, arith, ltb,
  length, drop, Bool-cases, Option-cases, All, IsByte, All-append, All-drop,
}
use proxmox_self_service_por.ByteQueue.{Reader, shift8, shift16, shift32, shift_bytes}
use mathlib.Core.Option
use proxmox_self_service_por.Websock.State.{Websock, Outcome, done, raised, max_rq_grow_size}
use proxmox_self_service_por.Websock.Receive.{
  rq_shift8, rq_shift16, rq_shift32, rq_shift_bytes, rq_wait, recv_message,
}
use proxmox_self_service_por.Websock.Unread.{unread, IsValid, length-unread, Received}
use proxmox_self_service_por.Websock.ReceiveLaws.{recv_message-Received}
use proxmox_self_service_por.Websock.ReadLaws.{
  rq_shift8-shift8, rq_shift16-shift16, rq_shift32-shift32, rq_shift_bytes-shift_bytes,
}
use proxmox_self_service_por.Websock.Calls.{
  Op, receive, wait_for, read8, read16, read32, read_bytes, Reply, fired, number, bytes, reply_with,
  queue_step, settled, sock_step, run, OpBytes, StandsFor,
}

-- What a reader of `n` bytes leaves is what stands behind them.
abbrev Consumes : {A : Type 0} → ℕ → Reader A → Type 0
Consumes {A} n reader =
    (q : List ℕ) (a : A) (q' : List ℕ) → reader q ≡ some (a, q') → (n ≤ length q) × (q' ≡ drop n q)

shift8-Consumes : Consumes 1 shift8
shift8-Consumes [] a q' e = cc
shift8-Consumes (x ∷ q) a q' e = (omega arith, cc)

shift16-Consumes : Consumes 2 shift16
shift16-Consumes [] a q' e = cc
shift16-Consumes (x ∷ []) a q' e = cc
shift16-Consumes (x ∷ y ∷ q) a q' e = (omega arith, cc)

shift32-Consumes : Consumes 4 shift32
shift32-Consumes [] a q' e = cc
shift32-Consumes (x ∷ []) a q' e = cc
shift32-Consumes (x ∷ y ∷ []) a q' e = cc
shift32-Consumes (x ∷ y ∷ z ∷ []) a q' e = cc
shift32-Consumes (x ∷ y ∷ z ∷ w ∷ q) a q' e = (omega arith, cc)

shift_bytes-Consumes : (n : ℕ) → Consumes n (shift_bytes n)
shift_bytes-Consumes n q a q' e = (ground arith, ground arith)

abbrev Refined : Option (Reply × Websock) → Reply → List ℕ → Type 0
Refined o r q' = (ws' : Websock) × (o ≡ some (r, ws')) × StandsFor ws' q'

abbrev returns : {A S : Type 0} → A → S → Option (A × S)
returns a s = some (a, s)

matched :
    {A : Type 0} (f : A → Reply) (a v : A) (q q' q'' : List ℕ) (r : Reply) (ws' : Websock)
    → returns a q'' ≡ returns v q
    → returns (f a) q'' ≡ returns r q'
    → (returns (f v) ws' ≡ returns r ws') × (q ≡ q') × (q'' ≡ q')
matched f a v q q' q'' r ws' e e' = (cc, cc, cc)

read_refines :
    {A : Type 0} (f : A → Reply) (reader : Reader A) (n : ℕ) (ws : Websock) (q : List ℕ)
    (got : A × Websock) {r : Reply} {q' : List ℕ}
    → StandsFor ws q
    → Consumes n reader
    → (n ≤ length q → reader (unread ws) ≡ some (got.0, unread got.1))
    → (n ≤ length q → IsValid got.1)
    → Option.map (reply_with f) (reader q) ≡ some (r, q')
    → Refined (some (reply_with f got)) r q'
read_refines f reader n ws q got {r} {q'} s consumes agrees valid e =
    elim (Option-cases (reader q)) [
      | inl nothing ↦ absurd (cc (rw nothing at e))
      | inr ((a, q''), found) ↦
          let (enough, behind) = consumes q a q'' found in
          let (same, left, kept) =
            matched f a got.0 (unread got.1) q' q'' r got.1
              (sym found ∙ ap reader (sym s.contents) ∙ agrees enough) (rw found at e) in
          (
            got.1,
            same,
            record {
              contents = left;
              valid = valid enough;
              all_bytes = subst (All IsByte) (sym behind ∙ kept) (All-drop IsByte n q s.all_bytes);
            },
          )
    ]

Received-refines :
    (ws : Websock) (q u8 : List ℕ) {r : Reply} {q' : List ℕ}
    → StandsFor ws q
    → All IsByte u8
    → (o : Outcome Bool) → Received ws u8 o
    → returns (fired (ltb 0 (length (q ++ u8)))) (q ++ u8) ≡ returns r q'
    → Refined (settled fired o) r q'
Received-refines ws q u8 s b (raised x w) m e = absurd m
Received-refines ws q u8 {r} {q'} s b (done fires w) m e =
    let same : q ++ u8 ≡ q' = cc in
    let told : fires ≡ ltb 0 (length (q ++ u8)) =
      m.1 ∙ ap (λ t. ltb 0 (length (t ++ u8))) s.contents in
    (
      w,
      cc,
      record {
        contents = m.0 ∙ ap (λ t. t ++ u8) s.contents ∙ same;
        valid = m.2;
        all_bytes = subst (All IsByte) same (All-append IsByte q u8 s.all_bytes b);
      },
    )

module _ (ws : Websock) (q : List ℕ) (s : StandsFor ws q) where
  its_bytes : All IsByte (unread ws)
  its_bytes = subst (All IsByte) (sym s.contents) s.all_bytes

  has : (n : ℕ) → n ≤ length q → n ≤ length (unread ws)
  has n h = subst (λ t. n ≤ length t) (sym s.contents) h

  in_queue : (n : ℕ) → n ≤ length q → ws.rq_i + n ≤ ws.rq_len
  in_queue n h = omega (arith, has n h, length-unread ws, s.valid)

  read8_refines :
      {r : Reply} {q' : List ℕ}
      → queue_step q read8 ≡ some (r, q')
      → Refined (sock_step ws read8) r q'
  unfolding queue_step sock_step
  read8_refines =
      read_refines number shift8 1 ws q (rq_shift8 ws) s shift8-Consumes
        (λ h. rq_shift8-shift8 ws s.valid its_bytes (has 1 h))
        (λ h. unfold rq_shift8 in omega (arith, in_queue 1 h, s.valid))

  read16_refines :
      {r : Reply} {q' : List ℕ}
      → queue_step q read16 ≡ some (r, q')
      → Refined (sock_step ws read16) r q'
  unfolding queue_step sock_step
  read16_refines =
      read_refines number shift16 2 ws q (rq_shift16 ws) s shift16-Consumes
        (λ h. rq_shift16-shift16 ws s.valid its_bytes (has 2 h))
        (λ h. unfold rq_shift16 in omega (arith, in_queue 2 h, s.valid))

  read32_refines :
      {r : Reply} {q' : List ℕ}
      → queue_step q read32 ≡ some (r, q')
      → Refined (sock_step ws read32) r q'
  unfolding queue_step sock_step
  read32_refines =
      read_refines number shift32 4 ws q (rq_shift32 ws) s shift32-Consumes
        (λ h. rq_shift32-shift32 ws s.valid its_bytes (has 4 h))
        (λ h. unfold rq_shift32 in omega (arith, in_queue 4 h, s.valid))

  read_bytes_refines :
      (n : ℕ) {r : Reply} {q' : List ℕ}
      → queue_step q (read_bytes n) ≡ some (r, q')
      → Refined (sock_step ws (read_bytes n)) r q'
  unfolding queue_step sock_step
  read_bytes_refines n =
      read_refines bytes (shift_bytes n) n ws q (rq_shift_bytes ws n) s (shift_bytes-Consumes n)
        (λ h. rq_shift_bytes-shift_bytes ws s.valid n (has n h))
        (λ h. unfold rq_shift_bytes in omega (arith, in_queue n h, s.valid))

  wait_for_refines :
      (n : ℕ) {r : Reply} {q' : List ℕ}
      → queue_step q (wait_for n) ≡ some (r, q')
      → Refined (sock_step ws (wait_for n)) r q'
  unfolding queue_step sock_step rq_wait
  wait_for_refines n {r} {q'} e = (
    ws,
    ground (arith, ap (length {0}) s.contents, length-unread ws, s.valid),
    subst (StandsFor ws) (cc) s,
  )

  receive_refines :
      (u8 : List ℕ) {r : Reply} {q' : List ℕ}
      → All IsByte u8
      → queue_step q (receive u8) ≡ some (r, q')
      → Refined (sock_step ws (receive u8)) r q'
  unfolding queue_step sock_step
  receive_refines u8 {r} {q'} b e =
      elim (Bool-cases (ltb max_rq_grow_size (length q + length u8))) [
        | inl over ↦ cc (rw over at e)
        | inr fits ↦
            Received-refines ws q u8 s b (recv_message ws u8)
              (recv_message-Received ws u8 s.valid (ground (arith, ap (length {0}) s.contents)))
              (rw fits at e)
      ]

-- Every call on the object returns what the same call on the queue returns.
step_refines :
    (ws : Websock) (q : List ℕ) (op : Op) {r : Reply} {q' : List ℕ}
    → StandsFor ws q
    → OpBytes op
    → queue_step q op ≡ some (r, q')
    → Refined (sock_step ws op) r q'
step_refines ws q (receive u8) s b e = receive_refines ws q s u8 b e
step_refines ws q (wait_for n) s b e = wait_for_refines ws q s n e
step_refines ws q read8 s b e = read8_refines ws q s e
step_refines ws q read16 s b e = read16_refines ws q s e
step_refines ws q read32 s b e = read32_refines ws q s e
step_refines ws q (read_bytes n) s b e = read_bytes_refines ws q s n e

-- A Websock that stands for a queue of bytes, given messages of bytes: as long as the queue allows
-- the calls (a client reads only what is there, and never more than 40 MiB wait), the Websock gives
-- exactly the replies of the queue, with no exception.
pub run_refines :
    (ws : Websock) (q : List ℕ) (ops : List Op) {rs : List Reply}
    → StandsFor ws q
    → All OpBytes ops
    → run queue_step q ops ≡ some rs
    → run sock_step ws ops ≡ some rs
unfolding run
run_refines ws q [] s b e = e
run_refines ws q (op ∷ ops) {rs} s b e = elim (Option-cases (queue_step q op)) [
  | inl nothing ↦ cc (rw (nothing, run) at e)
  | inr ((r, q'), stepped) ↦
      let (ws', same, s') = step_refines ws q op s b.0 stepped in
      elim (Option-cases (run queue_step q' ops)) [
        | inl nothing ↦ cc (rw nothing at (rw (stepped, run) at e))
        | inr (rs', went) ↦
            rw (same, run)
              (rw (run_refines ws' q' ops s' b.1 went) (rw went at (rw (stepped, run) at e)))
      ]
]
