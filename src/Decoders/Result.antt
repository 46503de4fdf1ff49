-- ===== src/Decoders/Result.antt =====
-- What a call of `decodeRect` does, for the files of core/decoders: it reads from the byte queue that
-- core/websock.js promises, keeps a state, and draws on core/display.js.
use proxmox_self_service_por.Prelude.{ℕ, Bool, Option, List, ◌++◌}

-- The calls on the display. A colour is absent where the source passes undefined.
pub data Draw : Type 0 where
  fill_rect : ℕ → ℕ → ℕ → ℕ → Option (List ℕ) → Draw
  copy_image : ℕ → ℕ → ℕ → ℕ → ℕ → ℕ → Draw
  blit_image : ℕ → ℕ → ℕ → ℕ → List ℕ → Draw

module _ (S : Type 0) where
  -- `returned` holds the value (false: more data is needed), the state, what is unread, and the calls
  -- on the display in order; `thrown` is an exception; `underrun` a read past the last byte.
  pub data Result : Type 0 where
    returned : Bool → S → List ℕ → List Draw → Result
    thrown : Result
    underrun : Result

abbrev pub emit : {S : Type 0} → List Draw → Result S → Result S
emit ds (returned finished s q ds') = returned finished s q (ds ++ ds')
emit ds thrown = thrown
emit ds underrun = underrun

-- The part of `decodeRect` that follows a read.
abbrev pub after_read : {A S : Type 0} → Option (A × List ℕ) → (A → List ℕ → Result S) → Result S
after_read (Option.none) k = underrun
after_read (Option.some (a, q)) k = k a q
