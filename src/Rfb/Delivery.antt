-- ===== src/Rfb/Delivery.antt =====
-- Messages that arrive: what it takes for a method of `RFB.messages` to have sent its bytes, none of
-- them left in the send queue of core/websock.js.
use mathlib.Core.List.{append-nil}
use proxmox_self_service_por.Prelude.{ℕ, ◌≡◌, refl, Option, some, List, [], ◌∷◌, ◌++◌, arith}
use proxmox_self_service_por.Prelude.Int.{ℤ}
use proxmox_self_service_por.Websock.State.{Websock, Outcome, done, raised}
use proxmox_self_service_por.Websock.Send.{
  Step, ◌>>◌, byte_at, sq_push8, sq_push16, sq_push32, sq_push_bytes, flush,
}
use proxmox_self_service_por.Websock.SendLaws.{
  wire, IsReady, Sent, flush-Cleared, flush-Emptied, Emptied,
}
use proxmox_self_service_por.Websock.PushLaws.{
  Sent-then, Sent-after, sq_push8-Sent, sq_push16-Sent, sq_push32-Sent,
}
use proxmox_self_service_por.Websock.PushBytes.{sq_push_bytes-Sent}
use proxmox_self_service_por.Rfb.Messages.{Sender, and_flush, and_push}

-- a number as the bytes that `sQpush8`, `sQpush16` and `sQpush32` push
abbrev pub u8 : ℤ → List ℕ
u8 n = byte_at n 0 ∷ []

abbrev pub u16 : ℤ → List ℕ
u16 n = byte_at n 8 ∷ byte_at n 0 ∷ []

abbrev pub u32 : ℤ → List ℕ
u32 n = byte_at n 24 ∷ byte_at n 16 ∷ byte_at n 8 ∷ byte_at n 0 ∷ []

-- On an open channel the step appends `bytes` to those given so far.
pub record Puts (bytes : List ℕ) (k : Step) : Type 0 where
  pub puts : (w : Websock) → IsReady w → Sent w bytes (k w)

-- All bytes were given to the channel.
abbrev pub Delivered : Websock → List ℕ → Outcome (Unit {0}) → Type 0
Delivered w bytes o = Sent w bytes o × Emptied o

pub record Delivers (bytes : List ℕ) (k : Step) : Type 0 where
  pub delivers : (w : Websock) → IsReady w → Delivered w bytes (k w)

pub push8 : (n : ℤ) → Puts (u8 n) (sq_push8 n)
push8 n = record { puts = sq_push8-Sent n }

pub push16 : (n : ℤ) → Puts (u16 n) (sq_push16 n)
push16 n = record { puts = sq_push16-Sent n }

pub push32 : (n : ℤ) → Puts (u32 n) (sq_push32 n)
push32 n = record { puts = sq_push32-Sent n }

pub flushes : Delivers [] flush
flushes = record { delivers = λ w r. ((flush-Cleared w 0 r (omega arith)).0, flush-Emptied w r) }

Emptied-after :
    (ws w : Websock) (xs ys : List ℕ) (o : Outcome (Unit {0}))
    → wire w ≡ wire ws ++ xs
    → Delivered w ys o
    → Delivered ws (xs ++ ys) o
Emptied-after ws w xs ys o p d = (Sent-after ws w xs ys o p d.0, d.1)

Delivered-then :
    (ws : Websock) (xs ys : List ℕ) (o : Outcome (Unit {0})) (k : Step)
    → Sent ws xs o
    → Delivers ys k
    → Delivered ws (xs ++ ys) (elim o [ done _ ws' ↦ k ws' | raised e ws' ↦ raised e ws' ])
Delivered-then ws xs ys (raised e w) k s next = absurd s
Delivered-then ws xs ys (done _ w) k s next =
    Emptied-after ws w xs ys (k w) s.0 (next.delivers w s.1)

infixr 6 ◌then◌ ◌also◌
-- a push, and what follows up to the `flush`
pub ◌then◌ :
    {xs ys : List ℕ} {m k : Step} → Puts xs m → Delivers ys k → Delivers (xs ++ ys) (m >> k)
◌then◌ {xs} {ys} {m} {k} p d = record {
  delivers = λ w r. Delivered-then w xs ys (m w) k (p.puts w r) d;
}

-- a push, and more pushes
pub ◌also◌ : {xs ys : List ℕ} {m k : Step} → Puts xs m → Puts ys k → Puts (xs ++ ys) (m >> k)
◌also◌ {xs} {ys} {m} {k} p d = record {
  puts = λ w r. Sent-then w xs ys (m w) k (p.puts w r) d.puts;
}

-- The method returns, and its bytes are delivered.
abbrev pub Arrives : Websock → List ℕ → Option (Outcome (Unit {0})) → Type 0
Arrives w bytes run = (o : Outcome (Unit {0})) × (run ≡ some o) × Delivered w bytes o

flush_after :
    (ws : Websock) (xs : List ℕ) (o : Outcome (Unit {0}))
    → Sent ws xs o
    → Arrives ws xs (and_flush (some o))
flush_after ws xs (raised e w) s = absurd s
flush_after ws xs (done _ w) s = (
  flush w,
  refl,
  rw (append-nil xs) at (Emptied-after ws w xs [] (flush w) s.0 (flushes.delivers w s.1)),
)

pushed :
    (ws : Websock) (xs ys : List ℕ) (o : Outcome (Unit {0})) (push : Sender)
    → Sent ws xs o
    → ((w : Websock) → IsReady w → (o : Outcome (Unit {0})) × (push w ≡ some o) × Sent w ys o)
    → Arrives ws (xs ++ ys) (and_push o push)
pushed ws xs ys (raised e w) push s next = absurd s
pushed ws xs ys (done _ w) push s next =
    let (o, e, t) = next w s.1 in rw e (flush_after ws (xs ++ ys) o (Sent-after ws w xs ys o s.0 t))

-- A head of pushes, then an array, then the `flush`.
pub pushed_bytes :
    (xs : List ℕ) (head : Step) (bytes : List ℕ) (ws : Websock)
    → Puts xs head
    → IsReady ws
    → Arrives ws (xs ++ bytes) (and_push (head ws) (sq_push_bytes bytes))
pushed_bytes xs head bytes ws p r =
    pushed ws xs bytes (head ws) (sq_push_bytes bytes) (p.puts ws r) (sq_push_bytes-Sent bytes)
