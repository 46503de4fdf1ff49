-- ===== src/Decoders/Resume.antt =====
-- A decoder of core/decoders may be called at any time, and is called again when more bytes have
-- come. `Resumable` says that this changes neither what it draws nor what it leaves.
use mathlib.Core.Path.{subst₂}
use mathlib.Core.List.{append_assoc, append-nil}
use proxmox_self_service_por.Prelude.{
  ℕ, ◌≡◌, refl, sym, ap, ◌∙◌, true, false, List, [], ◌∷◌, ◌++◌, concat, inl, inr, arith,
  length-append, if◌then◌else◌, Bool-cases,
}
use proxmox_self_service_por.ByteQueue.{Reader, wait}
use proxmox_self_service_por.Decoders.Takes.{Takes}
use proxmox_self_service_por.Decoders.Result.{
  Draw, Result, returned, thrown, underrun, emit, after_read,
}

module _ {S : Type 0} (decode : S → List ℕ → Result S) where
  -- A call that returned on `q`, against the call on `q` and more bytes. It has not read past `q`.
  abbrev pub Resumes : Result S → List ℕ → Result S → Type 0
  Resumes (returned true s q ds) more whole = whole ≡ returned true s (q ++ more) ds
  Resumes (returned false s q ds) more whole = whole ≡ emit ds (decode s (q ++ more))
  Resumes thrown more whole = whole ≡ thrown
  Resumes underrun more whole = ⊥

  abbrev pub Resumable : Type 0
  Resumable = (s : S) (q more : List ℕ) → Resumes (decode s q) more (decode s (q ++ more))

  -- What follows a call: none if it finished or threw, else the calls that `rest` makes.
  abbrev after_call : Result S → List ℕ → (S → List ℕ → Result S) → Result S
  after_call (returned true s q ds) more rest = returned true s (q ++ more) ds
  after_call (returned false s q ds) more rest = emit ds (rest s q)
  after_call thrown more rest = thrown
  after_call underrun more rest = underrun

  -- The calls that the messages `cs` bring about, the first one on `q`.
  pub feed : S → List ℕ → List (List ℕ) → Result S
  feed s q [] = decode s q
  feed s q (c ∷ cs) = after_call (decode s q) (concat (c ∷ cs)) (λ s' q'. feed s' (q' ++ c) cs)

  resumed :
      (o whole : Result S) (c : List ℕ) (cs : List (List ℕ))
      → Resumes o (concat (c ∷ cs)) whole
      → ((s : S) (q : List ℕ) → feed s q cs ≡ decode s (q ++ concat cs))
      → after_call o (concat (c ∷ cs)) (λ s' q'. feed s' (q' ++ c) cs) ≡ whole
  resumed (returned true s q ds) whole c cs r ih = sym r
  resumed (returned false s q ds) whole c cs r ih =
      ap (emit ds) (ih s (q ++ c) ∙ ap (decode s) (append_assoc q c (concat cs))) ∙ sym r
  resumed thrown whole c cs r ih = sym r
  resumed underrun whole c cs r ih = absurd r

  -- However the bytes are cut into messages, the calls together do what one call on all of them does.
  pub feed-decode :
      Resumable
      → (s : S) (q : List ℕ) (cs : List (List ℕ)) → feed s q cs ≡ decode s (q ++ concat cs)
  unfolding feed
  feed-decode h s q [] = ap (decode s) (sym (append-nil q))
  feed-decode h s q (c ∷ cs) =
      resumed (decode s q) (decode s (q ++ concat (c ∷ cs))) c cs (h s q (concat (c ∷ cs)))
        (λ s' q'. feed-decode h s' q' cs)

  pub emit_nil : (o : Result S) → emit [] o ≡ o
  emit_nil (returned finished s q ds) = refl
  emit_nil thrown = refl
  emit_nil underrun = refl

  emit-emit : (ds es : List Draw) (o : Result S) → emit ds (emit es o) ≡ emit (ds ++ es) o
  emit-emit ds es (returned finished s q fs) =
      ap (returned finished s q) (sym (append_assoc ds es fs))
  emit-emit ds es thrown = refl
  emit-emit ds es underrun = refl

  -- Drawing first changes nothing of this.
  pub emit-Resumes :
      (ds : List Draw) (o whole : Result S) (more : List ℕ)
      → Resumes o more whole
      → Resumes (emit ds o) more (emit ds whole)
  emit-Resumes ds (returned true s q es) whole more r = ap (emit ds) r
  emit-Resumes ds (returned false s q es) whole more r =
      ap (emit ds) r ∙ emit-emit ds es (decode s (q ++ more))
  emit-Resumes ds thrown whole more r = ap (emit ds) r
  emit-Resumes ds underrun whole more r = r

  -- A call that waits for `n` bytes and then reads them.
  abbrev pub guarded : {A : Type 0} → S → ℕ → Reader A → (A → List ℕ → Result S) → List ℕ → Result S
  guarded s n reader k q = if wait q n then returned false s q [] else after_read (reader q) k

  -- Where it waits, the next call starts the same again; where it reads, what follows decides.
  pub guarded-Resumes :
      {A : Type 0} (s : S) (n : ℕ) (reader : Reader A) (k : A → List ℕ → Result S)
      → ((q : List ℕ) → decode s q ≡ guarded s n reader k q)
      → Takes n reader
      → (q more : List ℕ) → ((a : A) (q' : List ℕ) → Resumes (k a q') more (k a (q' ++ more)))
      → Resumes (guarded s n reader k q) more (guarded s n reader k (q ++ more))
  guarded-Resumes s n reader k same takes q more next = elim (Bool-cases (wait q n)) [
    | inl short ↦
        rw (short, Resumes) (sym (same (q ++ more)) ∙ sym (emit_nil (decode s (q ++ more))))
    | inr enough ↦
        let t = takes q (ground arith) in
        let enough' : wait (q ++ more) n ≡ false = ground (arith, length-append q more) in
        rw (enough, enough', t.took, t.later more, Resumes) (next t.value t.left)
  ]

  pub Resumes-eq :
      {o o' w w' : Result S} (more : List ℕ)
      → o ≡ o'
      → w ≡ w'
      → Resumes o' more w'
      → Resumes o more w
  Resumes-eq more e f r = subst₂ (λ o w. Resumes o more w) (sym e) (sym f) r
