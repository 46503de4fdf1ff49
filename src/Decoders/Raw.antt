-- ===== src/Decoders/Raw.antt =====
-- core/decoders/raw.js. The state is `_lines`, the number of lines still to come.
use mathlib.Core.List.{append_assoc}
use proxmox_self_service_por.Prelude.{
  ℕ, zero, suc, ◌+◌, ◌-◌, ◌*◌, ◌/◌, ◌%◌, ◌≡◌, ◌≢◌, refl, sym, ap, ◌∙◌, inl, inr, true, false, ◌||◌,
  List, [], ◌∷◌, ◌++◌, arith, ◌==◌, length, length-append, concat, All, if◌then◌else◌, Bool-cases,
}
use proxmox_self_service_por.ByteQueue.{wait, shift_bytes, shift_bytes-append}
use proxmox_self_service_por.Decoders.Result.{Draw, blit_image, Result, returned, emit, after_read}
use proxmox_self_service_por.Decoders.Takes.{shift_bytes-Takes}
use proxmox_self_service_por.Decoders.Resume.{Resumes, Resumable, guarded-Resumes, emit-Resumes}

-- `((pixel >> 2 * i) & 0x3) * 255 / 3`
abbrev pub two_bits : ℕ → ℕ → ℕ
two_bits pixel step = pixel / step % 4 * 255 / 3

-- the conversion of a line of depth 8
abbrev pub convert_line : List ℕ → List ℕ
convert_line [] = []
convert_line (pixel ∷ pixels) =
    two_bits pixel 1 ∷ two_bits pixel 4 ∷ two_bits pixel 16 ∷ 255 ∷ convert_line pixels

-- Every fourth byte becomes 255.
abbrev pub make_opaque : List ℕ → List ℕ
make_opaque (r ∷ g ∷ b ∷ a ∷ line) = r ∷ g ∷ b ∷ 255 ∷ make_opaque line
make_opaque line = line

module _ (x y width height depth : ℕ) where
  abbrev pub bytes_per_line : ℕ
  bytes_per_line = width * (if depth == 8 then 1 else 4)

  -- what is drawn for the line `lines` from the end
  abbrev pub line_draw : ℕ → List ℕ → Draw
  line_draw lines line =
      blit_image x (y + (height - lines)) width 1
        (make_opaque (if depth == 8 then convert_line line else line))

  -- `while (this._lines > 0)`
  unfoldable pub raw_loop : ℕ → List ℕ → Result ℕ
  raw_loop zero q = returned true 0 q []
  raw_loop (suc lines) q =
      if wait q bytes_per_line
      then returned false (suc lines) q []
      else after_read (shift_bytes bytes_per_line q)
          (λ line q'. emit (line_draw (suc lines) line ∷ []) (raw_loop lines q'))

  unfoldable pub decode_rect : ℕ → List ℕ → Result ℕ
  decode_rect lines q =
      if width == 0 || height == 0
      then returned true lines q []
      else raw_loop (if lines == 0 then height else lines) q

module _ (x y width height depth : ℕ) (full : (width == 0 || height == 0) ≡ false) where
  resume_at :
      (lines : ℕ) (q : List ℕ)
      → decode_rect x y width height depth (suc lines) q
        ≡ raw_loop x y width height depth (suc lines) q
  unfolding decode_rect
  resume_at lines q = let ne : (suc lines == 0) ≡ false = ground arith in rw (full, ne)

  raw_loop-Resumes :
      (lines : ℕ) (q more : List ℕ)
      → Resumes
          (decode_rect x y width height depth)
          (raw_loop x y width height depth lines q)
          more
          (raw_loop x y width height depth lines (q ++ more))
  unfolding raw_loop
  raw_loop-Resumes zero q more = refl
  raw_loop-Resumes (suc n) q more =
      guarded-Resumes (decode_rect x y width height depth) (suc n)
        (bytes_per_line x y width height depth)
        (shift_bytes (bytes_per_line x y width height depth))
        (λ line q'.
          emit (line_draw x y width height depth (suc n) line ∷ [])
            (raw_loop x y width height depth n q'))
        (resume_at n) (shift_bytes-Takes (bytes_per_line x y width height depth)) q more
        (λ line q'.
          emit-Resumes (decode_rect x y width height depth)
            (line_draw x y width height depth (suc n) line ∷ [])
            (raw_loop x y width height depth n q') (raw_loop x y width height depth n (q' ++ more))
            more (raw_loop-Resumes n q' more))

-- A raw rectangle may come in pieces of any size, at both depths: every line is drawn once, from the
-- bytes that one call on all of them would use.
pub raw-Resumable : (x y width height depth : ℕ) → Resumable (decode_rect x y width height depth)
unfolding decode_rect
raw-Resumable x y width height depth lines q more = elim (Bool-cases (width == 0 || height == 0)) [
  | inl e ↦ rw (e, Resumes)
  | inr f ↦
      rw (f, Resumes)
        (raw_loop-Resumes x y width height depth f (if lines == 0 then height else lines) q more)
]

module _ (x y width height depth : ℕ) where
  -- the rows drawn one below the other, the first one `i` below the top
  abbrev pub rows_from : ℕ → List (List ℕ) → List Draw
  rows_from i [] = []
  rows_from i (row ∷ rows) =
      blit_image x (y + i) width 1 (make_opaque (if depth == 8 then convert_line row else row))
      ∷ rows_from (suc i) rows

  abbrev pub FullRow : List ℕ → Type 0
  FullRow row = length row ≡ bytes_per_line x y width height depth

  raw_loop-rows :
      (rows : List (List ℕ)) (i : ℕ) (rest : List ℕ)
      → All FullRow rows
      → i + length rows ≡ height
      → raw_loop x y width height depth (length rows) (concat rows ++ rest)
        ≡ returned true 0 rest (rows_from i rows)
  unfolding raw_loop
  raw_loop-rows [] i rest h e = refl
  raw_loop-rows (row ∷ rows) i rest h e =
      let bpl = bytes_per_line x y width height depth in
      let enough : wait (row ++ (concat rows ++ rest)) bpl ≡ false =
        ground (arith, h.0, length-append row (concat rows ++ rest)) in
      let place : height - suc (length rows) ≡ i = omega arith in
      rw (append_assoc row (concat rows) rest) (
        rw (shift_bytes-append row (concat rows ++ rest) h.0, enough, place)
          (rw (raw_loop-rows rows (suc i) rest h.1 (omega arith))))

  -- A raw rectangle of at least one pixel draws its rows from the top down, one line each, every
  -- pixel made opaque (after the conversion, at depth 8); it reads just its rows.
  pub decode_rect-rows :
      (rows : List (List ℕ)) (rest : List ℕ)
      → width ≢ 0
      → height ≢ 0
      → length rows ≡ height
      → All FullRow rows
      → decode_rect x y width height depth 0 (concat rows ++ rest)
        ≡ returned true 0 rest (rows_from 0 rows)
  unfolding decode_rect
  decode_rect-rows rows rest w h e full =
      let some_pixel : (width == 0 || height == 0) ≡ false = ground arith in
      rw some_pixel (
        ap (λ n. raw_loop x y width height depth n (concat rows ++ rest)) (sym e)
        ∙ raw_loop-rows rows 0 rest full (omega arith))
