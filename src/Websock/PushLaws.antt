-- ===== src/Websock/PushLaws.antt =====
-- `sQpush8` to `sQpushBytes` of core/websock.js append big-endian bytes to what is sent or
-- waits to be sent, whether or not the buffer has to be flushed on the way.
use Prim.Native.Nat.{min}
use mathlib.Core.Path.{ap₂}
use mathlib.Core.List.{append_assoc}
use proxmox_self_service_por.Prelude.{
  ℕ, suc, ◌+◌, ◌-◌, ◌%◌, ◌≤◌, ◌<◌, ◌≡◌, sym, ap, ◌∙◌, List, [], ◌∷◌, ◌++◌, arith, length, take,
  drop, length-take, length-drop,
}
use proxmox_self_service_por.Prelude.Int.{ℤ}
use proxmox_self_service_por.Js.Bytes.{Uint8Array, window, overlay, store, window_split, window_ext}
use proxmox_self_service_por.Websock.State.{Websock, Outcome, done, raised, ready_state}
use proxmox_self_service_por.Websock.Send.{
  Step, ◌>>◌, byte_at, sq_ensure_space, put, sq_push8, sq_push16, sq_push32, push_chunk,
}
use proxmox_self_service_por.Websock.SendLaws.{
  wire, sent_bytes, IsReady, Sent, Room, sq_ensure_space-Cleared,
}

-- A step that appends `bytes` and leaves room for `n` more.
abbrev Staged : Websock → List ℕ → ℕ → Outcome (Unit {0}) → Type 0
Staged ws bytes n o = Sent ws bytes o × Room n o

pub Sent-after :
    {A : Type 0} (ws w : Websock) (xs ys : List ℕ) (o : Outcome A)
    → wire w ≡ wire ws ++ xs
    → Sent w ys o
    → Sent ws (xs ++ ys) o
Sent-after ws w xs ys (raised e w') p s = s
Sent-after ws w xs ys (done a w') p s =
    (s.0 ∙ ap (λ t. t ++ ys) p ∙ append_assoc (wire ws) xs ys, s.1)

-- Steps in order append their bytes in order.
pub Sent-then :
    {A : Type 0} (ws : Websock) (xs ys : List ℕ) (o : Outcome (Unit {0})) (k : Websock → Outcome A)
    → Sent ws xs o
    → ((w : Websock) → IsReady w → Sent w ys (k w))
    → Sent ws (xs ++ ys) (elim o [ done _ ws' ↦ k ws' | raised e ws' ↦ raised e ws' ])
Sent-then ws xs ys (raised e w) k s next = s
Sent-then ws xs ys (done _ w) k s next = Sent-after ws w xs ys (k w) s.0 (next w s.1)

Staged-then :
    (ws : Websock) (xs ys : List ℕ) (n m : ℕ) (o : Outcome (Unit {0})) (k : Step)
    → Staged ws xs n o
    → ((w : Websock) → IsReady w → w.sq_len + n ≤ w.sq_buffer_size → Staged w ys m (k w))
    → Staged ws (xs ++ ys) m (elim o [ done _ ws' ↦ k ws' | raised e ws' ↦ raised e ws' ])
Staged-then ws xs ys n m (raised e w) k s next = absurd s.0
Staged-then ws xs ys n m (done _ w) k s next =
    let (sent, room) = next w s.0.1 s.1 in (Sent-after ws w xs ys (k w) s.0.0 sent, room)

store_extends :
    (a : Uint8Array) (n v : ℕ)
    → n < a.size
    → window (store a n v).cell 0 (n + 1) ≡ window a.cell 0 n ++ (v % 256 ∷ [])
store_extends a n v h =
    rw (window_split (store a n v).cell 0 n 1)
      (ap₂ ◌++◌ (window_ext (store a n v).cell a.cell 0 0 n (λ k lt. ground arith)) (ground arith))

put-Staged :
    (v n : ℕ) (ws : Websock)
    → IsReady ws
    → ws.sq_len + suc n ≤ ws.sq_buffer_size
    → Staged ws (v % 256 ∷ []) n (put v ws)
unfolding put ready_state
put-Staged v n ws r h = (
  (
    ap (λ t. sent_bytes ws.websocket ++ t) (store_extends ws.sq ws.sq_len v (omega (arith, r)))
        ∙ sym
            (append_assoc (sent_bytes ws.websocket) (window ws.sq.cell 0 ws.sq_len) (v % 256 ∷ [])),
    record {
      channel_open = r.channel_open;
      within = omega arith;
      sized = r.sized;
      roomy = r.roomy;
    },
  ),
  omega arith,
)

byte-byte : (num : ℤ) (k : ℕ) → byte_at num k % 256 ≡ byte_at num k
byte-byte num k = omega arith

put_byte-Staged :
    (num : ℤ) (k n : ℕ) (ws : Websock)
    → IsReady ws
    → ws.sq_len + suc n ≤ ws.sq_buffer_size
    → Staged ws (byte_at num k ∷ []) n (put (byte_at num k) ws)
put_byte-Staged num k n ws r h = rw (byte-byte num k) at (put-Staged (byte_at num k) n ws r h)

-- What holds of a step at every ready object with room for `n` bytes.
abbrev From : ℕ → List ℕ → ℕ → Step → Type 0
From n bytes m k =
    (w : Websock) → IsReady w → w.sq_len + n ≤ w.sq_buffer_size → Staged w bytes m (k w)

put_then :
    (num : ℤ) (k n m : ℕ) (ys : List ℕ) (next : Step)
    → From n ys m next
    → From (suc n) (byte_at num k ∷ ys) m (put (byte_at num k) >> next)
put_then num k n m ys next f w r h =
    Staged-then w (byte_at num k ∷ []) ys n m (put (byte_at num k) w) next
      (put_byte-Staged num k n w r h) f

space_then :
    (n : ℕ) (ys : List ℕ) (next : Step) (ws : Websock)
    → IsReady ws
    → n ≤ 4
    → From n ys 0 next
    → Sent ws ys ((sq_ensure_space n >> next) ws)
space_then n ys next ws r h f =
    (Staged-then ws [] ys n 0 (sq_ensure_space n ws) next
      (sq_ensure_space-Cleared n ws r (omega (arith, r))) f).0

-- `sQpush8` on an open channel appends the low byte to those given so far.
pub sq_push8-Sent :
    (num : ℤ) (ws : Websock) → IsReady ws → Sent ws (byte_at num 0 ∷ []) (sq_push8 num ws)
unfolding sq_push8
sq_push8-Sent num ws r =
    space_then 1 _ (put (byte_at num 0)) ws r (omega arith) (put_byte-Staged num 0 0)

-- `sQpush16` on an open channel appends two bytes to those given so far, the high one first.
pub sq_push16-Sent :
    (num : ℤ) (ws : Websock)
    → IsReady ws
    → Sent ws (byte_at num 8 ∷ byte_at num 0 ∷ []) (sq_push16 num ws)
unfolding sq_push16
sq_push16-Sent num ws r =
    space_then 2 _ (put (byte_at num 8) >> put (byte_at num 0)) ws r (omega arith)
      (put_then num 8 1 0 _ _ (put_byte-Staged num 0 0))

-- `sQpush32` on an open channel raises nothing and appends four bytes, the highest one first, to those
-- given so far: what the channel was sent followed by what waits in the send queue, for the next
-- flush, is what it was before followed by the four bytes.
pub sq_push32-Sent :
    (num : ℤ) (ws : Websock)
    → IsReady ws
    → Sent ws
        (byte_at num 24 ∷ byte_at num 16 ∷ byte_at num 8 ∷ byte_at num 0 ∷ [])
        (sq_push32 num ws)
unfolding sq_push32
sq_push32-Sent num ws r =
    space_then 4 _
      (put (byte_at num 24)
        >> (put (byte_at num 16) >> (put (byte_at num 8) >> put (byte_at num 0))))
      ws r (omega arith)
      (put_then num 24 3 0 _ _
        (put_then num 16 2 0 _ _ (put_then num 8 1 0 _ _ (put_byte-Staged num 0 0))))

pub push_chunk_lem :
    (bytes : List ℕ) (offset : ℕ) (ws : Websock)
    → IsReady ws
    → push_chunk bytes offset ws ≡ (
        let chunk_size = min (ws.sq_buffer_size - ws.sq_len) (length bytes - offset) in
        done (offset + chunk_size) (record ws {
          sq = record ws.sq {
            cell = overlay ws.sq.cell (take chunk_size (drop offset bytes)) ws.sq_len;
          };
          sq_len = ws.sq_len + chunk_size;
        }))
unfolding push_chunk
push_chunk_lem bytes offset ws r = ground (
  arith,
  length-take (min (ws.sq_buffer_size - ws.sq_len) (length bytes - offset)) (drop offset bytes),
  length-drop offset bytes,
)
