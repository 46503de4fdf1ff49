-- ===== src/Websock/Calls.antt =====
-- The calls that a reader makes of core/websock.js, and the same calls made of the byte queue that a
-- Websock promises to be.
use proxmox_self_service_por.Prelude.{
  ℕ, ◌+◌, ◌≡◌, Bool, Option, none, some, List, [], ◌∷◌, ◌++◌, ltb, length, if◌then◌else◌, All,
  IsByte,
}
use proxmox_self_service_por.ByteQueue.{Reader, shift8, shift16, shift32, shift_bytes}
use mathlib.Core.Option
use proxmox_self_service_por.ByteQueue
use proxmox_self_service_por.Websock.State.{Websock, Outcome, done, raised, max_rq_grow_size}
use proxmox_self_service_por.Websock.Receive.{
  rq_shift8, rq_shift16, rq_shift32, rq_shift_bytes, rq_wait, recv_message,
}
use proxmox_self_service_por.Websock.Unread.{unread, IsValid}

pub data Op : Type 0 where
  receive : List ℕ → Op
  wait_for : ℕ → Op
  read8 read16 read32 : Op
  read_bytes : ℕ → Op

pub data Reply : Type 0 where
  fired must_wait : Bool → Reply
  number : ℕ → Reply
  bytes : List ℕ → Reply

abbrev pub reply_with : {A S : Type 0} → (A → Reply) → A × S → Reply × S
reply_with f (a, s) = (f a, s)

-- The call on the queue; `none` if too few bytes are there, or too many for the maximum.
unfoldable pub queue_step : List ℕ → Op → Option (Reply × List ℕ)
queue_step q (receive u8) =
    if ltb max_rq_grow_size (length q + length u8)
    then none
    else some (fired (ltb 0 (length (q ++ u8))), q ++ u8)
queue_step q (wait_for n) = some (must_wait (ByteQueue.wait q n), q)
queue_step q read8 = Option.map (reply_with number) (shift8 q)
queue_step q read16 = Option.map (reply_with number) (shift16 q)
queue_step q read32 = Option.map (reply_with number) (shift32 q)
queue_step q (read_bytes n) = Option.map (reply_with bytes) (shift_bytes n q)

abbrev pub settled : {A : Type 0} → (A → Reply) → Outcome A → Option (Reply × Websock)
settled f (done a ws) = some (f a, ws)
settled f (raised e ws) = none

-- The call on the object; `none` if it raises.
unfoldable pub sock_step : Websock → Op → Option (Reply × Websock)
sock_step ws (receive u8) = settled fired (recv_message ws u8)
sock_step ws (wait_for n) = settled must_wait (rq_wait ws n 0)
sock_step ws read8 = some (reply_with number (rq_shift8 ws))
sock_step ws read16 = some (reply_with number (rq_shift16 ws))
sock_step ws read32 = some (reply_with number (rq_shift32 ws))
sock_step ws (read_bytes n) = some (reply_with bytes (rq_shift_bytes ws n))

module _ {S : Type 0} (step : S → Op → Option (Reply × S)) where
  -- the calls in order, with what each returns
  unfoldable pub run : S → List Op → Option (List Reply)
  run s [] = some []
  run s (op ∷ ops) = elim (step s op) [
    | none ↦ none
    | some (r, s') ↦ Option.map (λ rs. r ∷ rs) (run s' ops)
  ]

-- Messages hold bytes.
abbrev pub OpBytes : Op → Type 0
OpBytes (receive u8) = All IsByte u8
OpBytes _ = Unit

-- The object stands for the queue `q`.
pub record StandsFor (ws : Websock) (q : List ℕ) : Type 0 where
  pub contents : unread ws ≡ q
  pub valid : IsValid ws
  pub all_bytes : All IsByte q
