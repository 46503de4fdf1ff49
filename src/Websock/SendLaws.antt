-- ===== src/Websock/SendLaws.antt =====
-- The send queue of core/websock.js loses, adds and reorders nothing while the channel is open.
use mathlib.Core.List.{append-nil, append_assoc}
use proxmox_self_service_por.Prelude.{
  ℕ, ◌+◌, ◌≤◌, ◌≡◌, refl, sym, ap, ◌∙◌, inl, inr, Option, none, some, List, [], ◌∷◌, ◌++◌, arith,
  ltb, concat, if◌then◌else◌, Bool-cases,
}
use proxmox_self_service_por.Js.Bytes.{window}
use proxmox_self_service_por.Websock.State.{
  RawChannel, Websock, is_open, Outcome, done, raised, ready_state,
}
use proxmox_self_service_por.Websock.Send.{send_pending, flush, sq_ensure_space}

abbrev pub sent_bytes : Option RawChannel → List ℕ
sent_bytes none = []
sent_bytes (some c) = concat c.sent

-- every byte given to the object so far: those sent, then those that wait
abbrev pub wire : Websock → List ℕ
wire ws = sent_bytes ws.websocket ++ window ws.sq.cell 0 ws.sq_len

-- The channel is open and the send queue holds no more than its array.
pub record IsReady (ws : Websock) : Type 0 where
  pub channel_open : ready_state ws ≡ is_open
  pub within : ws.sq_len ≤ ws.sq_buffer_size
  pub sized : ws.sq_buffer_size ≡ ws.sq.size
  pub roomy : 4 ≤ ws.sq_buffer_size

-- The step raised nothing, and appended exactly `bytes` to those given so far.
abbrev pub Sent : {A : Type 0} → Websock → List ℕ → Outcome A → Type 0
Sent ws bytes (raised e ws') = ⊥
Sent ws bytes (done a ws') = (wire ws' ≡ wire ws ++ bytes) × IsReady ws'

abbrev pub Room : ℕ → Outcome (Unit {0}) → Type 0
Room n (raised e ws') = ⊥
Room n (done a ws') = ws'.sq_len + n ≤ ws'.sq_buffer_size

concat-append : (ms ns : List (List ℕ)) → concat (ms ++ ns) ≡ concat ms ++ concat ns
concat-append [] ns = refl
concat-append (m ∷ ms) ns = simp (concat-append ms ns, append_assoc)

after_send : Websock → RawChannel → Websock
after_send ws c = record ws {
  websocket = some (record c { sent = c.sent ++ (window ws.sq.cell 0 ws.sq_len ∷ []) });
  sq_len = 0;
}

send_pending_lem :
    (ws : Websock) (c : RawChannel) → IsReady ws → send_pending ws c ≡ done tt (after_send ws c)
unfolding send_pending after_send
send_pending_lem ws c r = ground arith

wire-after_send :
    (ws : Websock) (c : RawChannel) → ws.websocket ≡ some c → wire (after_send ws c) ≡ wire ws ++ []
unfolding after_send
wire-after_send ws c e =
    let pending = window ws.sq.cell 0 ws.sq_len in
    append-nil (concat (c.sent ++ (pending ∷ [])))
    ∙ concat-append c.sent (pending ∷ [])
    ∙ ap (λ t. concat c.sent ++ t) (append-nil pending)
    ∙ ap (λ t. sent_bytes t ++ pending) (sym e)
    ∙ sym (append-nil (wire ws))

after_send-IsReady :
    (ws : Websock) (c : RawChannel) → ws.websocket ≡ some c → IsReady ws → IsReady (after_send ws c)
unfolding after_send ready_state
after_send-IsReady ws c e r = record {
  channel_open = rw e at r.channel_open;
  within = omega arith;
  sized = r.sized;
  roomy = r.roomy;
}

flush_lem :
    (ws : Websock) (c : RawChannel)
    → ws.websocket ≡ some c
    → IsReady ws
    → flush ws ≡ (if ltb 0 ws.sq_len then done tt (after_send ws c) else done tt ws)
unfolding flush
flush_lem ws c e r = ground (arith, send_pending_lem ws c r)

-- A step that sends nothing new and makes room for `n` bytes.
abbrev pub Cleared : Websock → ℕ → Outcome (Unit {0}) → Type 0
Cleared ws n o = Sent ws [] o × Room n o

unsent :
    (ws : Websock) (n : ℕ)
    → IsReady ws
    → ws.sq_len + n ≤ ws.sq_buffer_size
    → Cleared ws n (done tt ws)
unsent ws n r h = ((sym (append-nil (wire ws)), r), h)

flush_at :
    (ws : Websock) (o : Option RawChannel) (n : ℕ)
    → ws.websocket ≡ o
    → IsReady ws
    → n ≤ ws.sq_buffer_size
    → Cleared ws n (flush ws)
unfolding ready_state after_send
flush_at ws none n e r h = cc (rw e at r.channel_open)
flush_at ws (some c) n e r h = elim (Bool-cases (ltb 0 ws.sq_len)) [
  | inl t ↦
      rw (flush_lem ws c e r, t, Cleared, Sent)
        ((wire-after_send ws c e, after_send-IsReady ws c e r), omega arith)
  | inr f ↦
      let empty : ws.sq_len ≡ 0 = ground arith in
      rw (flush_lem ws c e r, f, Cleared, Sent) (unsent ws n r (omega arith))
]

-- `flush` on an open channel sends what waits and adds nothing; it leaves room for `n` bytes.
pub flush-Cleared :
    (ws : Websock) (n : ℕ) → IsReady ws → n ≤ ws.sq_buffer_size → Cleared ws n (flush ws)
flush-Cleared ws n r h = flush_at ws ws.websocket n refl r h

pub sq_ensure_space-Cleared :
    (n : ℕ) (ws : Websock)
    → IsReady ws
    → n ≤ ws.sq_buffer_size
    → Cleared ws n (sq_ensure_space n ws)
unfolding sq_ensure_space
sq_ensure_space-Cleared n ws r h = elim (Bool-cases (ltb ws.sq_buffer_size (ws.sq_len + n))) [
  | inl t ↦ rw (t, Cleared) (flush-Cleared ws n r h)
  | inr f ↦ rw (f, Cleared) (unsent ws n r (ground arith))
]

-- Nothing waits in the send queue.
abbrev pub Emptied : Outcome (Unit {0}) → Type 0
Emptied (raised e ws') = ⊥
Emptied (done a ws') = ws'.sq_len ≡ 0

flushed :
    (ws : Websock) (o : Option RawChannel) → ws.websocket ≡ o → IsReady ws → Emptied (flush ws)
unfolding ready_state after_send
flushed ws none e r = cc (rw e at r.channel_open)
flushed ws (some c) e r = elim (Bool-cases (ltb 0 ws.sq_len)) [
  | inl t ↦ rw (flush_lem ws c e r, t, Emptied) refl
  | inr f ↦ rw (flush_lem ws c e r, f, Emptied) (ground arith)
]

-- After `flush` on an open channel nothing waits.
pub flush-Emptied : (ws : Websock) → IsReady ws → Emptied (flush ws)
flush-Emptied ws r = flushed ws ws.websocket refl r
