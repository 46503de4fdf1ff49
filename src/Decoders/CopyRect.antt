-- ===== src/Decoders/CopyRect.antt =====
-- core/decoders/copyrect.js. It keeps no state.
use proxmox_self_service_por.Prelude.{ℕ, true, false, ◌||◌, List, [], ◌∷◌, ◌==◌, if◌then◌else◌}
use proxmox_self_service_por.ByteQueue.{Reader, pure, ◌>>=◌, wait, shift16}
use proxmox_self_service_por.Decoders.Result.{copy_image, Result, returned, after_read}
use proxmox_self_service_por.Decoders.Takes.{Takes}

-- the reads of `deltaX` and `deltaY`
unfoldable pub read_source : Reader (ℕ × ℕ)
read_source = do delta_x ← shift16; delta_y ← shift16; pure (delta_x, delta_y)

module _ (x y width height : ℕ) where
  unfoldable pub decode_rect : Unit {0} → List ℕ → Result (Unit {0})
  decode_rect _ q =
      if wait q 4
      then returned false tt q []
      else after_read (read_source q) (λ delta q'. returned true tt q' (
          if width == 0 || height == 0
          then []
          else copy_image delta.0 delta.1 x y width height ∷ []))
