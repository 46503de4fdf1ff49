-- ===== src/Websock/LifecycleLaws.antt =====
-- A Websock of core/websock.js after `attach`: a new one is ready, and one that was used before
-- keeps the write position of its last connection.
use Prim.Native.String.{String}
use mathlib.Core.List.{append-nil}
use proxmox_self_service_por.Prelude.{
  ℕ, zero, suc, ◌≡◌, refl, ap, ◌∙◌, none, List, [], ◌∷◌, arith, replicate, concat,
}
use proxmox_self_service_por.Js.Bytes.{window}
use proxmox_self_service_por.Websock.State.{
  RawChannel, Websock, Outcome, done, raised, new_websock, is_open, sub_ready_state, ready_state,
}
use proxmox_self_service_por.Websock.Lifecycle.{attach, first_missing, raw_channel_props}
use proxmox_self_service_por.Websock.Unread.{unread, IsValid}
use proxmox_self_service_por.Websock.SendLaws.{IsReady, wire}

-- What `attach` to a complete channel leaves.
abbrev pub Attached : Outcome (Unit {0}) → (Websock → Type 0) → Type 0
Attached (done _ ws) P = P ws
Attached (raised e ws) P = ⊥

-- `attach` of a new object to an open channel with all the properties: nothing to read, nothing
-- waiting to be sent, and both queues well formed.
pub attach_new :
    (c : RawChannel) (props : List String)
    → first_missing raw_channel_props props ≡ none
    → sub_ready_state c.sub_state ≡ is_open
    → Attached
        (attach c props new_websock)
        (λ ws. (unread ws ≡ []) × IsValid ws × IsReady ws × (wire ws ≡ concat c.sent))
unfolding attach new_websock ready_state
attach_new c props complete is =
    rw (complete, Attached)
      (
        refl,
        omega arith,
        record { channel_open = is; within = omega arith; sized = refl; roomy = omega arith },
        append-nil (concat c.sent),
      )

window_of_zeros : (i n : ℕ) → window (λ _. 0) i n ≡ replicate n 0
window_of_zeros i zero = refl
window_of_zeros i (suc n) = ap (λ t. 0 ∷ t) (window_of_zeros (suc i) n)

-- `attach` of an object that has received bytes since its last reset: as many zero bytes are unread.
pub attach_used :
    (c : RawChannel) (props : List String) (ws : Websock)
    → first_missing raw_channel_props props ≡ none
    → Attached (attach c props ws) (λ ws'. unread ws' ≡ replicate ws.rq_len 0)
unfolding attach
attach_used c props ws complete =
    rw (complete, Attached) (ap (window (λ _. 0) 0) (omega arith) ∙ window_of_zeros 0 ws.rq_len)
