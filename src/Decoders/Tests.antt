-- ===== src/Decoders/Tests.antt =====
-- The theorems about core/decoders at concrete inputs.
use proxmox_self_service_por.Prelude.{◌≡◌, refl, true, some, [], ◌∷◌, ◌++◌, arith}
use proxmox_self_service_por.ByteQueue.{be32}
use proxmox_self_service_por.Decoders.Result.{fill_rect, blit_image, returned}
use proxmox_self_service_por.Decoders.Resume.{Resumes}
use proxmox_self_service_por.Decoders.Raw
use proxmox_self_service_por.Decoders.CopyRect
use proxmox_self_service_por.Decoders.Rre
use proxmox_self_service_por.Decoders.Hextile
use proxmox_self_service_por.Decoders.Hextile.Paint.{new_decoder}
use proxmox_self_service_por.Decoders.HextileLaws.{hextile-Resumable}

-- two lines of one pixel, in two pieces
raw-Resumable_example :
    Resumes
      (Raw.decode_rect 5 6 1 2 24)
      (Raw.decode_rect 5 6 1 2 24 0 (1 ∷ 2 ∷ 3 ∷ 4 ∷ 5 ∷ []))
      (6 ∷ 7 ∷ 8 ∷ 9 ∷ [])
      (Raw.decode_rect 5 6 1 2 24 0 (1 ∷ 2 ∷ 3 ∷ 4 ∷ 5 ∷ 6 ∷ 7 ∷ 8 ∷ 9 ∷ []))
raw-Resumable_example = Raw.raw-Resumable 5 6 1 2 24 0 (1 ∷ 2 ∷ 3 ∷ 4 ∷ 5 ∷ []) (6 ∷ 7 ∷ 8 ∷ 9 ∷ [])

decode_rect-rows_example :
    Raw.decode_rect 5 6 1 2 24 0 (1 ∷ 2 ∷ 3 ∷ 4 ∷ 5 ∷ 6 ∷ 7 ∷ 8 ∷ 9 ∷ [])
    ≡ returned true 0
        (9 ∷ [])
        (blit_image 5 6 1 1 (1 ∷ 2 ∷ 3 ∷ 255 ∷ []) ∷ blit_image 5 7 1 1 (5 ∷ 6 ∷ 7 ∷ 255 ∷ []) ∷ [])
decode_rect-rows_example =
    Raw.decode_rect-rows 5 6 1 2 24 ((1 ∷ 2 ∷ 3 ∷ 4 ∷ []) ∷ (5 ∷ 6 ∷ 7 ∷ 8 ∷ []) ∷ []) (9 ∷ [])
      (omega arith) (omega arith) refl (refl, (refl, tt))

abbrev part : Rre.Subrect
part = record { color = 1 ∷ 2 ∷ 3 ∷ 4 ∷ []; sx = 1; sy = 2; swidth = 300; sheight = 2 }

rre-Resumable_example :
    Resumes
      (Rre.decode_rect 10 20 30 40)
      (Rre.decode_rect 10 20 30 40 0 (be32 1 ++ (9 ∷ 9 ∷ 9 ∷ [])))
      ((9 ∷ []) ++ Rre.encode_subrect part)
      (Rre.decode_rect 10 20 30 40 0
        ((be32 1 ++ (9 ∷ 9 ∷ 9 ∷ [])) ++ ((9 ∷ []) ++ Rre.encode_subrect part)))
rre-Resumable_example =
    Rre.rre-Resumable 10 20 30 40 0 (be32 1 ++ (9 ∷ 9 ∷ 9 ∷ []))
      ((9 ∷ []) ++ Rre.encode_subrect part)

decode_rect-encode_example :
    Rre.decode_rect 10 20 30 40 0
      (be32 1 ++ ((9 ∷ 9 ∷ 9 ∷ 9 ∷ []) ++ (Rre.encode_subrects (part ∷ []) ++ (5 ∷ []))))
    ≡ returned true 0 (5 ∷ []) (
        fill_rect 10 20 30 40 (some (9 ∷ 9 ∷ 9 ∷ 9 ∷ []))
        ∷ fill_rect 11 22 300 2 (some (1 ∷ 2 ∷ 3 ∷ 4 ∷ []))
        ∷ [])
decode_rect-encode_example =
    Rre.decode_rect-encode 10 20 30 40 (9 ∷ 9 ∷ 9 ∷ 9 ∷ []) (part ∷ []) (5 ∷ []) refl (refl, tt)

-- a tile with a background and one coloured sub-rectangle, cut in the middle
hextile-Resumable_example :
    Resumes
      (Hextile.decode_rect 0 0 2 2)
      (Hextile.decode_rect 0 0 2 2 new_decoder (26 ∷ 1 ∷ 2 ∷ 3 ∷ 4 ∷ 1 ∷ 5 ∷ []))
      (6 ∷ 7 ∷ 8 ∷ 17 ∷ 0 ∷ 33 ∷ [])
      (Hextile.decode_rect 0 0 2 2 new_decoder
        (26 ∷ 1 ∷ 2 ∷ 3 ∷ 4 ∷ 1 ∷ 5 ∷ 6 ∷ 7 ∷ 8 ∷ 17 ∷ 0 ∷ 33 ∷ []))
hextile-Resumable_example =
    hextile-Resumable 0 0 2 2 new_decoder (26 ∷ 1 ∷ 2 ∷ 3 ∷ 4 ∷ 1 ∷ 5 ∷ [])
      (6 ∷ 7 ∷ 8 ∷ 17 ∷ 0 ∷ 33 ∷ [])
