-- ===== src/Decoders/HextileLaws.antt =====
-- A hextile rectangle (core/decoders/hextile.js) may come in pieces.
use proxmox_self_service_por.Prelude.{
  ℕ, zero, suc, ◌+◌, ◌*◌, ◌≤◌, ◌≡◌, refl, sym, ap, ◌∙◌, inl, inr, true, false, Option, none, some,
  List, [], ◌∷◌, ◌++◌, arith, ltb, ◌==◌, length, length-append, if◌then◌else◌, Bool-cases,
}
use proxmox_self_service_por.ByteQueue.{wait}
use proxmox_self_service_por.Decoders.Result.{Draw, Result, returned, thrown, after_read}
use proxmox_self_service_por.Decoders.Takes.{Took}
use proxmox_self_service_por.Decoders.Resume.{
  Resumes, Resumable, emit_nil, emit-Resumes, Resumes-eq,
}
use proxmox_self_service_por.Decoders.Hextile.Read.{
  Tile, is_raw, any_subrects, read_tile, colors_size, subtile_size,
}
use proxmox_self_service_por.Decoders.Hextile.Paint.{State, apply_tile}
use proxmox_self_service_por.Decoders.Hextile.{
  after_tile, end_round, read_round, sized_round, counted_round, last_peeked, known_round, round,
  hextile_loop, count_tiles, decode_rect,
}
use proxmox_self_service_por.Decoders.HextileReads.{
  read_raw-Takes, tile_raw, tile_painted, tile_flat, read_painted-Took, last_peeked-append,
}

module _ (decode : State → List ℕ → Result State) (tx ty tw th : ℕ)
    (next : State → List ℕ → Result State) (tiles : ℕ)
    (goes_on : (s : State) (q more : List ℕ)
      → s.tiles ≡ tiles
      → Resumes decode (next s q) more (next s (q ++ more))) where
  after_tile-Resumes :
      (sub : ℕ) (o : Option (State × List Draw)) (q more : List ℕ)
      → Resumes decode
          (after_tile tx ty tw th next sub tiles o q)
          more
          (after_tile tx ty tw th next sub tiles o (q ++ more))
  after_tile-Resumes sub none q more = refl
  after_tile-Resumes sub (some (s, draws)) q more =
      let s₁ = record s { last_subencoding = sub; tiles = tiles } in
      emit-Resumes decode draws (next s₁ q) (next s₁ (q ++ more)) more (goes_on s₁ q more refl)

  end_round-Resumes :
      (sub : ℕ) (s : State) (tile : Tile) (q more : List ℕ)
      → Resumes decode
          (end_round tx ty tw th next sub tiles s tile q)
          more
          (end_round tx ty tw th next sub tiles s tile (q ++ more))
  unfolding end_round
  end_round-Resumes sub s tile q more =
      after_tile-Resumes sub (apply_tile tx ty tw th tile s) q more

  -- A wait that finds too little ends the call, and the next call starts the same again.
  waits :
      (s : State) (n : ℕ) (q more : List ℕ) (rest : Result State) {whole : Result State}
      → wait q n ≡ true
      → decode s (q ++ more) ≡ whole
      → Resumes decode (if wait q n then returned false s q [] else rest) more whole
  waits s n q more rest short same =
      rw (short, Resumes) (sym same ∙ sym (emit_nil decode (decode s (q ++ more))))

  -- the rest of a round, once `bytes` is known: it is the number of bytes that are read
  read_round-Resumes :
      (sub bytes : ℕ) (s : State) (q more : List ℕ)
      → decode s (q ++ more) ≡ read_round tx ty tw th next sub tiles s (q ++ more) bytes
      → (bytes ≤ length q → Took bytes (read_tile sub tw th) q)
      → Resumes decode
          (read_round tx ty tw th next sub tiles s q bytes)
          more
          (read_round tx ty tw th next sub tiles s (q ++ more) bytes)
  read_round-Resumes sub bytes s q more same took = elim (Bool-cases (wait q bytes)) [
    | inl short ↦
        waits s bytes q more
          (after_read (read_tile sub tw th q) (end_round tx ty tw th next sub tiles s)) short same
    | inr enough ↦
        let t = took (ground arith) in
        let enough' : wait (q ++ more) bytes ≡ false = ground (arith, length-append q more) in
        Resumes-eq decode more (rw (enough, t.took)) (rw (enough', t.later more))
          (end_round-Resumes sub s t.value t.left more)
  ]

  counted_round-Resumes :
      (sub : ℕ) (s : State) (q more : List ℕ)
      → is_raw sub ≡ false
      → any_subrects sub ≡ true
      → decode s (q ++ more) ≡ counted_round tx ty tw th next sub tiles s (q ++ more)
      → Resumes decode
          (counted_round tx ty tw th next sub tiles s q)
          more
          (counted_round tx ty tw th next sub tiles s (q ++ more))
  counted_round-Resumes sub s q more nr any same =
      let bytes = colors_size sub + 1 in
      elim (Bool-cases (wait q bytes)) [
        | inl short ↦
            waits s bytes q more
              (sized_round tx ty tw th next sub tiles s q bytes (last_peeked bytes q)) short same
        | inr enough ↦
            let (n, last, here, there) = last_peeked-append (colors_size sub) q more enough in
            let enough' : wait (q ++ more) bytes ≡ false = ground (arith, length-append q more) in
            let now : counted_round tx ty tw th next sub tiles s q
                ≡ read_round tx ty tw th next sub tiles s q (bytes + n * subtile_size sub) =
              rw (enough, here) in
            let then' : counted_round tx ty tw th next sub tiles s (q ++ more)
                ≡ read_round tx ty tw th next sub tiles s (q ++ more)
                    (bytes + n * subtile_size sub) =
              rw (enough', there) in
            Resumes-eq decode more now then' (
              read_round-Resumes sub (bytes + n * subtile_size sub) s q more (same ∙ then') (λ h.
                rw (tile_painted sub tw th nr any)
                  (read_painted-Took sub n q (ground arith) last h)))
      ]

  known_round-Resumes :
      (sub : ℕ) (s : State) (q more : List ℕ)
      → decode s (q ++ more) ≡ known_round tx ty tw th next sub tiles s (q ++ more)
      → Resumes decode
          (known_round tx ty tw th next sub tiles s q)
          more
          (known_round tx ty tw th next sub tiles s (q ++ more))
  known_round-Resumes sub s q more same = elim (Bool-cases (ltb 30 sub)) [
    | inl illegal ↦
        Resumes-eq decode {o' = thrown} {w' = thrown} more (rw illegal) (rw illegal) refl
    | inr legal ↦ elim (Bool-cases (is_raw sub)) [
      | inl raw ↦
          let branch : (q' : List ℕ)
              → known_round tx ty tw th next sub tiles s q'
                ≡ read_round tx ty tw th next sub tiles s q' (1 + tw * th * 4) =
            λ q'. rw (legal, raw) in
          Resumes-eq decode more (branch q) (branch (q ++ more)) (
            read_round-Resumes sub (1 + tw * th * 4) s q more (same ∙ branch (q ++ more))
              (λ h. rw (tile_raw sub tw th raw) (read_raw-Takes tw th q h)))
      | inr nr ↦ elim (Bool-cases (any_subrects sub)) [
        | inl any ↦
            let branch : (q' : List ℕ)
                → known_round tx ty tw th next sub tiles s q'
                  ≡ counted_round tx ty tw th next sub tiles s q' =
              λ q'. rw (legal, nr, any) in
            Resumes-eq decode more (branch q) (branch (q ++ more))
              (counted_round-Resumes sub s q more nr any (same ∙ branch (q ++ more)))
        | inr flat ↦
            let branch : (q' : List ℕ)
                → known_round tx ty tw th next sub tiles s q'
                  ≡ read_round tx ty tw th next sub tiles s q' (colors_size sub) =
              λ q'. rw (legal, nr, flat) in
            Resumes-eq decode more (branch q) (branch (q ++ more)) (
              read_round-Resumes sub (colors_size sub) s q more (same ∙ branch (q ++ more))
                (tile_flat sub tw th nr flat q))
      ]
    ]
  ]

  round-Resumes :
      (s : State) (q more : List ℕ)
      → decode s (q ++ more) ≡ round tx ty tw th next tiles s (q ++ more)
      → Resumes decode
          (round tx ty tw th next tiles s q)
          more
          (round tx ty tw th next tiles s (q ++ more))
  unfolding round
  round-Resumes s [] more same = sym same ∙ sym (emit_nil decode (decode s more))
  round-Resumes s (sub ∷ q) more same =
      let some_byte : (q' : List ℕ)
          → round tx ty tw th next tiles s (sub ∷ q')
            ≡ known_round tx ty tw th next sub tiles s (sub ∷ q') =
        λ q'. let e : wait (sub ∷ q') 1 ≡ false = ground arith in rw e in
      Resumes-eq decode more (some_byte q) (some_byte (q ++ more))
        (known_round-Resumes sub s (sub ∷ q) more (same ∙ some_byte (q ++ more)))

module _ (x y width height : ℕ) where
  going_on :
      (tiles : ℕ) (s : State) (q : List ℕ)
      → s.tiles ≡ suc tiles
      → decode_rect x y width height s q ≡ hextile_loop x y width height (suc tiles) s q
  unfolding decode_rect
  going_on tiles s q e =
      let busy : (s.tiles == 0) ≡ false = ground arith in
      rw busy (ap (λ n. hextile_loop x y width height n s q) e)

  hextile_loop-Resumes :
      (tiles : ℕ) (s : State) (q more : List ℕ)
      → s.tiles ≡ tiles
      → Resumes
          (decode_rect x y width height)
          (hextile_loop x y width height tiles s q)
          more
          (hextile_loop x y width height tiles s (q ++ more))
  unfolding hextile_loop
  hextile_loop-Resumes zero s q more e = refl
  hextile_loop-Resumes (suc tiles) s q more e =
      round-Resumes (decode_rect x y width height) _ _ _ _
        (λ s' q'. hextile_loop x y width height tiles s' q') tiles
        (λ s' q' more' e'. hextile_loop-Resumes tiles s' q' more' e') s q more
        (going_on tiles s (q ++ more) e)

  -- A hextile rectangle may come in pieces of any size, whatever was decoded before it: no byte is
  -- read before the decoder has waited for it, the tiles drawn are those of a single call on all the
  -- bytes, and so are the state and the bytes left.
  pub hextile-Resumable : Resumable (decode_rect x y width height)
  unfolding decode_rect
  hextile-Resumable s q more =
      let s' = if s.tiles == 0 then count_tiles x y width height s else s in
      hextile_loop-Resumes s'.tiles s' q more refl
