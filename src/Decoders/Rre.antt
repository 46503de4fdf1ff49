-- ===== src/Decoders/Rre.antt =====
-- core/decoders/rre.js. The state is `_subrects`, the number of sub-rectangles still to come.
use mathlib.Core.List.{append_assoc}
use proxmox_self_service_por.Prelude.{
  ℕ, zero, suc, ◌+◌, ◌≡◌, refl, true, false, some, List, [], ◌∷◌, ◌++◌, arith, length,
  length-append, map, All, if◌then◌else◌,
}
use proxmox_self_service_por.ByteQueue.{
  Reader, pure, ◌>>=◌, wait, shift16, shift32, shift_bytes, be16, be32, word16, word32,
  shift_bytes-append,
}
use proxmox_self_service_por.Decoders.Result.{Draw, fill_rect, Result, returned, emit, after_read}
use proxmox_self_service_por.Decoders.Takes.{
  Takes, pure-Takes, shift16-Takes, shift32-Takes, shift_bytes-Takes, >>=-Takes,
}
use proxmox_self_service_por.Decoders.Resume.{Resumes, Resumable, guarded-Resumes, emit-Resumes}

pub record Subrect : Type 0 where
  pub color : List ℕ
  pub sx : ℕ
  pub sy : ℕ
  pub swidth : ℕ
  pub sheight : ℕ

-- the reads of a round of the loop
unfoldable pub read_subrect : Reader Subrect
read_subrect = do
  color ← shift_bytes 4
  sx ← shift16
  sy ← shift16
  swidth ← shift16
  sheight ← shift16
  pure (record { color = color; sx = sx; sy = sy; swidth = swidth; sheight = sheight })

-- the reads of the first call: the number of sub-rectangles, and the background
unfoldable pub read_header : Reader (ℕ × List ℕ)
read_header = do subrects ← shift32; color ← shift_bytes 4; pure (subrects, color)

module _ (x y width height : ℕ) where
  -- `while (this._subrects > 0)`
  unfoldable pub rre_loop : ℕ → List ℕ → Result ℕ
  rre_loop zero q = returned true 0 q []
  rre_loop (suc subrects) q =
      if wait q 12
      then returned false (suc subrects) q []
      else after_read (read_subrect q) (λ r q'.
        emit (fill_rect (x + r.sx) (y + r.sy) r.swidth r.sheight (some r.color) ∷ [])
          (rre_loop subrects q'))

  unfoldable pub decode_rect : ℕ → List ℕ → Result ℕ
  unfolding rre_loop
  decode_rect zero q =
      if wait q 8
      then returned false 0 q []
      else after_read (read_header q)
          (λ r q'. emit (fill_rect x y width height (some r.1) ∷ []) (rre_loop r.0 q'))
  decode_rect (suc subrects) q = rre_loop (suc subrects) q

read_subrect-Takes : Takes 12 read_subrect
unfolding read_subrect
read_subrect-Takes = >>=-Takes 4 8 _ _ (shift_bytes-Takes 4) λ a.
    >>=-Takes 2 6 _ _ shift16-Takes λ b.
      >>=-Takes 2 4 _ _ shift16-Takes
        λ c. >>=-Takes 2 2 _ _ shift16-Takes λ d. >>=-Takes 2 0 _ _ shift16-Takes λ e. pure-Takes _

read_header-Takes : Takes 8 read_header
unfolding read_header
read_header-Takes =
    >>=-Takes 4 4 _ _ shift32-Takes λ a. >>=-Takes 4 0 _ _ (shift_bytes-Takes 4) λ b. pure-Takes _

module _ (x y width height : ℕ) where
  -- what a round of the loop draws
  abbrev pub subrect_draw : Subrect → Draw
  subrect_draw r = fill_rect (x + r.sx) (y + r.sy) r.swidth r.sheight (some r.color)

  rre_loop-Resumes :
      (subrects : ℕ) (q more : List ℕ)
      → Resumes
          (decode_rect x y width height)
          (rre_loop x y width height subrects q)
          more
          (rre_loop x y width height subrects (q ++ more))
  unfolding decode_rect
  rre_loop-Resumes zero q more = refl
  rre_loop-Resumes (suc n) q more =
      guarded-Resumes (decode_rect x y width height) (suc n) 12 read_subrect
        (λ r q'.
          emit (fill_rect (x + r.sx) (y + r.sy) r.swidth r.sheight (some r.color) ∷ [])
            (rre_loop x y width height n q'))
        (λ q'. refl) read_subrect-Takes q more
        (λ r q'.
          emit-Resumes (decode_rect x y width height) (subrect_draw r ∷ [])
            (rre_loop x y width height n q') (rre_loop x y width height n (q' ++ more)) more
            (rre_loop-Resumes n q' more))

  -- An RRE rectangle may come in pieces: a call that wants more bytes leaves off where the next call
  -- goes on, no byte is read before `rQwait` has found it, and nothing is drawn twice or left out.
  pub rre-Resumable : Resumable (decode_rect x y width height)
  unfolding decode_rect
  rre-Resumable zero q more =
      guarded-Resumes (decode_rect x y width height) 0 8 read_header
        (λ r q'.
          emit (fill_rect x y width height (some r.1) ∷ []) (rre_loop x y width height r.0 q'))
        (λ q'. refl) read_header-Takes q more
        (λ r q'.
          emit-Resumes (decode_rect x y width height) (fill_rect x y width height (some r.1) ∷ [])
            (rre_loop x y width height r.0 q') (rre_loop x y width height r.0 (q' ++ more)) more
            (rre_loop-Resumes r.0 q' more))
  rre-Resumable (suc n) q more = rre_loop-Resumes (suc n) q more

abbrev pub encode_place : Subrect → List ℕ
encode_place r = be16 r.sx ++ (be16 r.sy ++ (be16 r.swidth ++ be16 r.sheight))

-- The RRE format: the count, the background, then each sub-rectangle with its colour first.
abbrev pub encode_subrect : Subrect → List ℕ
encode_subrect r = r.color ++ encode_place r

abbrev pub encode_subrects : List Subrect → List ℕ
encode_subrects [] = []
encode_subrects (r ∷ rs) = encode_subrect r ++ encode_subrects rs

abbrev pub FourBytes : Subrect → Type 0
FourBytes r = length r.color ≡ 4

read_subrect-encode :
    (r : Subrect) (rest : List ℕ)
    → FourBytes r
    → read_subrect (encode_subrect r ++ rest) ≡ some (r, rest)
unfolding read_subrect
read_subrect-encode r rest four = rw (append_assoc r.color _ rest) (
    rw (shift_bytes-append r.color (encode_place r ++ rest) four, ◌>>=◌)
      (rw (word16 r.sx, word16 r.sy, word16 r.swidth, word16 r.sheight)))

read_header-encode :
    (n : ℕ) (background rest : List ℕ)
    → length background ≡ 4
    → read_header (be32 n ++ (background ++ rest)) ≡ some ((n, background), rest)
unfolding read_header
read_header-encode n background rest four =
    rw (shift_bytes-append background rest four, ◌>>=◌) (rw (word32 n))

enough_subrect :
    (r : Subrect) (rest : List ℕ) → FourBytes r → wait (encode_subrect r ++ rest) 12 ≡ false
enough_subrect r rest four =
    ground (arith, length-append (encode_subrect r) rest, length-append r.color (encode_place r))

module _ (x y width height : ℕ) where
  rre_loop-encode :
      (rs : List Subrect) (rest : List ℕ)
      → All FourBytes rs
      → rre_loop x y width height (length rs) (encode_subrects rs ++ rest)
        ≡ returned true 0 rest (map (subrect_draw x y width height) rs)
  unfolding rre_loop
  rre_loop-encode [] rest h = refl
  rre_loop-encode (r ∷ rs) rest h = rw (
    append_assoc (encode_subrect r) (encode_subrects rs) rest,
    enough_subrect r (encode_subrects rs ++ rest) h.0,
    read_subrect-encode r (encode_subrects rs ++ rest) h.0,
    rre_loop-encode rs rest h.1,
  )

  -- What a server writes by the RRE format is drawn as it was meant: the background over the whole
  -- rectangle, then every sub-rectangle in order, moved by the rectangle's corner; all of the
  -- encoding is read, and nothing behind it.
  pub decode_rect-encode :
      (background : List ℕ) (rs : List Subrect) (rest : List ℕ)
      → length background ≡ 4
      → All FourBytes rs
      → decode_rect x y width height 0
          (be32 (length rs) ++ (background ++ (encode_subrects rs ++ rest)))
        ≡ returned true 0 rest
            (fill_rect x y width height (some background) ∷ map (subrect_draw x y width height) rs)
  unfolding decode_rect
  decode_rect-encode background rs rest four h =
      let enough : wait (be32 (length rs) ++ (background ++ (encode_subrects rs ++ rest))) 8
          ≡ false =
        ground (arith, length-append background (encode_subrects rs ++ rest)) in
      rw (
        enough,
        read_header-encode (length rs) background (encode_subrects rs ++ rest) four,
        rre_loop-encode rs rest h,
      )
