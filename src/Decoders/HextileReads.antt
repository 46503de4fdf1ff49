-- ===== src/Decoders/HextileReads.antt =====
-- The bytes that core/decoders/hextile.js waits for are those that it then reads, tile by tile.
use mathlib.Core.Path.{subst}
use native.Mathlib.Numerals.{add-one}
use proxmox_self_service_por.Prelude.{
  ℕ, zero, suc, ◌+◌, ◌*◌, ◌≤◌, ◌<◌, ◌≡◌, refl, sym, ap, ◌∙◌, inl, inr, Bool, true, false, some,
  List, [], ◌∷◌, ◌++◌, arith, ◌==◌, length, length-append, length-drop, take, drop, if◌then◌else◌,
  Bool-cases,
}
use proxmox_self_service_por.ByteQueue.{wait, peek8, shift8}
use proxmox_self_service_por.Decoders.Takes.{
  Took, Takes, Takes-eq, pure-Takes, shift8-Takes, shift_bytes-Takes, >>=-Takes, >>=-Took,
  take-append,
}
use proxmox_self_service_por.Decoders.Hextile.Read.{
  read_color, has_background, has_foreground, subrects_coloured, is_raw, any_subrects, read_subtile,
  read_subtiles, read_colors, read_painted, read_flat, read_raw, read_blank, read_tile, colors_size,
  subtile_size, last_of,
}
use proxmox_self_service_por.Decoders.Hextile.{last_peeked}

read_color-Takes : (b : Bool) → Takes (if b then 4 else 0) (read_color b)
read_color-Takes true = >>=-Takes 4 0 _ _ (shift_bytes-Takes 4) λ c. pure-Takes _
read_color-Takes false = pure-Takes _

read_colors-Takes : (sub : ℕ) → Takes (colors_size sub) (read_colors sub)
unfolding read_colors
read_colors-Takes sub =
    let b = if has_background sub then 4 else 0 in
    let f = if has_foreground sub then 4 else 0 in
    Takes-eq {n = 1 + (b + (f + 0))} _ (omega arith) (
      >>=-Takes 1 (b + (f + 0)) _ _ shift8-Takes λ _.
        >>=-Takes b (f + 0) _ _ (read_color-Takes (has_background sub))
          λ bg. >>=-Takes f 0 _ _ (read_color-Takes (has_foreground sub)) λ fg. pure-Takes _)

read_subtile-Takes : (c : Bool) → Takes (if c then 4 + 2 else 2) (read_subtile c)
unfolding read_subtile
read_subtile-Takes true =
    >>=-Takes 4 2 _ _ (read_color-Takes true)
      λ col. >>=-Takes 1 1 _ _ shift8-Takes λ xy. >>=-Takes 1 0 _ _ shift8-Takes λ wh. pure-Takes _
read_subtile-Takes false = >>=-Takes 0 2 _ _ (read_color-Takes false) λ col.
    >>=-Takes 1 1 _ _ shift8-Takes λ xy.
      >>=-Takes 1 0 _ _ shift8-Takes λ wh. pure-Takes (record { color = col; xy = xy; wh = wh })

read_subtiles-Takes : (c : Bool) (n : ℕ) → Takes (n * (if c then 4 + 2 else 2)) (read_subtiles c n)
unfolding read_subtiles
read_subtiles-Takes c zero = Takes-eq {n = 0} _ (omega arith) (pure-Takes _)
read_subtiles-Takes c (suc n) =
    let k = if c then 4 + 2 else 2 in
    Takes-eq {n = k + (n * k + 0)} _ (size k) (
      >>=-Takes k (n * k + 0) _ _ (read_subtile-Takes c)
        λ s. >>=-Takes (n * k) 0 _ _ (read_subtiles-Takes c n) λ rest. pure-Takes _)
  where
    size : (k : ℕ) → k + (n * k + 0) ≡ suc n * k
    size k = omega arith

read_flat-Takes : (sub : ℕ) → Takes (colors_size sub) (read_flat sub)
unfolding read_flat
read_flat-Takes sub =
    Takes-eq {n = colors_size sub + 0} _ (omega arith)
      (>>=-Takes (colors_size sub) 0 _ _ (read_colors-Takes sub) λ c. pure-Takes _)

pub read_raw-Takes : (tw th : ℕ) → Takes (1 + tw * th * 4) (read_raw tw th)
unfolding read_raw
read_raw-Takes tw th = Takes-eq {n = 1 + (tw * th * 4 + 0)} _ (omega arith) (
    >>=-Takes 1 (tw * th * 4 + 0) _ _ shift8-Takes
      λ _. >>=-Takes (tw * th * 4) 0 _ _ (shift_bytes-Takes (tw * th * 4)) λ p. pure-Takes _)

read_blank-Takes : Takes 1 read_blank
unfolding read_blank
read_blank-Takes = >>=-Takes 1 0 _ _ shift8-Takes λ _. pure-Takes _

-- The byte at the end of what is peeked is the one that stands there.
last_of-take : (n : ℕ) (q : List ℕ) → n < length q → last_of (take (suc n) q) ≡ peek8 (drop n q)
last_of-take n [] h = absurd (omega arith)
last_of-take zero (x ∷ q) h = refl
last_of-take (suc n) (x ∷ []) h = absurd (omega arith)
last_of-take (suc n) (x ∷ y ∷ q) h = last_of-take n (y ∷ q) (omega arith)

peeked_is_read : (n v : ℕ) (l r : List ℕ) → peek8 l ≡ some n → shift8 l ≡ some (v, r) → v ≡ n
peeked_is_read n v [] r p e = cc
peeked_is_read n v (x ∷ l) r p e = cc

-- With the number of sub-rectangles that was peeked, the reads of a painted tile take just the bytes
-- that were waited for.
pub read_painted-Took :
    (sub n : ℕ) (q : List ℕ)
    → colors_size sub < length q
    → last_of (take (suc (colors_size sub)) q) ≡ some n
    → colors_size sub + 1 + n * subtile_size sub ≤ length q
    → Took (colors_size sub + 1 + n * subtile_size sub) (read_painted sub) q
unfolding read_painted
read_painted-Took sub n q h₁ counted h₂ =
    let cs = colors_size sub in
    let k = subtile_size sub in
    let t = read_colors-Takes sub q (omega arith) in
    let u = shift8-Takes t.left (omega (arith, t.count)) in
    let same : u.value ≡ n =
      peeked_is_read n u.value t.left u.left
        (ap peek8 t.rest_is ∙ sym (last_of-take cs q h₁) ∙ counted) u.took in
    let fits : u.value * k ≤ length u.left = rw same (omega (arith, t.count, u.count)) in
    let v = read_subtiles-Takes (subrects_coloured sub) u.value u.left fits in
    let size : cs + (1 + (u.value * k + 0)) ≡ cs + 1 + n * k = rw same (omega arith) in
    subst (λ m. Took m (read_painted sub) q) size
      (>>=-Took cs (1 + (u.value * k + 0)) (read_colors sub) _ t (
        >>=-Took 1 (u.value * k + 0) shift8 _ u (
          >>=-Took (u.value * k) 0 (read_subtiles (subrects_coloured sub) u.value) _ v
            (pure-Takes _ v.left (omega arith)))))

pub tile_raw : (sub tw th : ℕ) → is_raw sub ≡ true → read_tile sub tw th ≡ read_raw tw th
unfolding read_tile
tile_raw sub tw th h = let ne : (sub == 0) ≡ false = ground arith in rw (ne, h)

pub tile_painted :
    (sub tw th : ℕ)
    → is_raw sub ≡ false
    → any_subrects sub ≡ true
    → read_tile sub tw th ≡ read_painted sub
unfolding read_tile
tile_painted sub tw th h a = let ne : (sub == 0) ≡ false = ground arith in rw (ne, h, a)

pub tile_flat :
    (sub tw th : ℕ)
    → is_raw sub ≡ false
    → any_subrects sub ≡ false
    → Takes (colors_size sub) (read_tile sub tw th)
unfolding read_tile
tile_flat sub tw th h a = elim (Bool-cases (sub == 0)) [
  | inl z ↦
      let one : 1 ≡ colors_size sub = ground arith in
      rw z (Takes-eq read_blank one read_blank-Takes)
  | inr ne ↦ rw (ne, h, a) (read_flat-Takes sub)
]

peek8-some : (l : List ℕ) → 0 < length l → (x : ℕ) × (peek8 l ≡ some x)
peek8-some [] h = absurd (omega arith)
peek8-some (x ∷ l) h = (x, refl)

last_peeked_lem :
    (n : ℕ) (q : List ℕ) → wait q (n + 1) ≡ false → last_peeked (n + 1) q ≡ last_of (take (suc n) q)
last_peeked_lem n q h = rw (h, last_peeked) (rw add-one)

-- What is peeked is there, and later bytes do not change it.
pub last_peeked-append :
    (n : ℕ) (q more : List ℕ)
    → wait q (n + 1) ≡ false
    → (x : ℕ) × (last_of (take (suc n) q) ≡ some x)
      × (last_peeked (n + 1) q ≡ some x)
      × (last_peeked (n + 1) (q ++ more) ≡ some x)
last_peeked-append n q more h =
    let enough : n < length q = ground arith in
    let enough' : wait (q ++ more) (n + 1) ≡ false = ground (arith, length-append q more) in
    let (x, there) = peek8-some (drop n q) (omega (arith, length-drop n q)) in
    let last : last_of (take (suc n) q) ≡ some x = last_of-take n q enough ∙ there in
    (
      x,
      last,
      last_peeked_lem n q h ∙ last,
      last_peeked_lem n (q ++ more) enough' ∙ ap last_of (take-append (suc n) q more enough) ∙ last,
    )
