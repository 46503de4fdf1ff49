-- ===== src/Display/Sync.antt =====
-- The visible canvas of core/display.js shows the opaque pixels of the hidden one, but for the damage
-- that is recorded; and after `flip` without exception.
use proxmox_self_service_por.Prelude.{
  ◌+◌, ◌≡◌, inl, inr, Bool, true, false, ◌&&◌, arith, Bool-cases,
}
use proxmox_self_service_por.Prelude.Int.{
  ℤ, pos, pos_part, neg_part, ◌+ℤ◌, ◌-ℤ◌, ◌≤ℤ◌, ltb_ℤ, int_laws, ◌<ℤ◌, ltb_ℤ→lt, ltb_ℤ→le, lt→ltb_ℤ,
  le→ltb_ℤ, eq_of_parts,
}
use proxmox_self_service_por.Display.Canvas.{
  Plane, Rect, paint, between, inside, is_opaque, over, over_opaque,
}
use proxmox_self_service_por.Display.Bounds.{both_true}
use proxmox_self_service_por.Display.State.{
  Bounds, View, damage_by, damage, Span, flip_span, cut_front, cut_end, show, flip_now,
}

-- The pixel is in the damage.
abbrev pub damaged : Bounds → ℤ → ℤ → Bool
damaged b i j = between b.left b.right i && between b.top b.bottom j

-- Where the viewport shows a pixel, it shows the buffer's.
abbrev pub Shows : View → ℤ → ℤ → Type 0
Shows d i j = d.shown i j ≡ d.back (i +ℤ d.viewport_loc.x) (j +ℤ d.viewport_loc.y)

abbrev pub in_viewport : View → ℤ → ℤ → Bool
in_viewport d i j = between (pos 0) d.viewport_loc.w i && between (pos 0) d.viewport_loc.h j

-- The buffer's pixel at a place of the viewport is opaque.
abbrev pub opaque_at : View → ℤ → ℤ → Bool
opaque_at d i j = is_opaque (d.back (i +ℤ d.viewport_loc.x) (j +ℤ d.viewport_loc.y))

-- Every opaque pixel of the viewport is shown, or is recorded as damage.
pub record InSync (d : View) : Type 0 where
  pub shows :
      (i j : ℤ)
      → in_viewport d i j ≡ true
      → damaged d.damage_bounds (i +ℤ d.viewport_loc.x) (j +ℤ d.viewport_loc.y) ≡ false
      → opaque_at d i j ≡ true
      → Shows d i j

pub between→le : (lo hi i : ℤ) → between lo hi i ≡ true → (lo ≤ℤ i) × (i <ℤ hi)
between→le lo hi i h = elim (Bool-cases (ltb_ℤ i lo)) [
  | inl below ↦ cc (rw below at h)
  | inr above ↦ (ltb_ℤ→le i lo above, ltb_ℤ→lt i hi (rw above at h))
]

pub le→between : (lo hi i : ℤ) → lo ≤ℤ i → i <ℤ hi → between lo hi i ≡ true
le→between lo hi i l u = rw (le→ltb_ℤ i lo l, lt→ltb_ℤ i hi u)

-- The span shows the buffer at the viewport's place: its source is its destination moved by `loc`.
abbrev IsAligned : ℤ → Span → Type 0
IsAligned loc s =
    pos_part s.source + neg_part s.dest + neg_part loc
    ≡ neg_part s.source + pos_part s.dest + pos_part loc

cut_front-IsAligned : (loc : ℤ) (s : Span) → IsAligned loc s → IsAligned loc (cut_front s)
cut_front-IsAligned loc s a = elim (Bool-cases (ltb_ℤ s.dest (pos 0))) [
  | inl before ↦ rw before (omega int_laws)
  | inr after ↦ rw after a
]

cut_end-IsAligned : (loc size : ℤ) (s : Span) → IsAligned loc s → IsAligned loc (cut_end size s)
cut_end-IsAligned loc size s a = elim (Bool-cases (ltb_ℤ size (s.dest +ℤ s.len))) [
  | inl over ↦ rw over a
  | inr under ↦ rw under a
]

span-IsAligned : (lo hi loc size : ℤ) → IsAligned loc (flip_span lo hi loc size)
unfolding flip_span
span-IsAligned lo hi loc size = cut_end-IsAligned loc size _ (
    cut_front-IsAligned loc (record { source = lo; len = hi -ℤ lo; dest = lo -ℤ loc })
      (omega int_laws))

-- The coordinate of the viewport lies in the span.
record Covers (i : ℤ) (s : Span) : Type 0 where
  from : s.dest ≤ℤ i
  to : i <ℤ (s.dest +ℤ s.len)

cut_front-Covers : (i : ℤ) (s : Span) → pos 0 ≤ℤ i → Covers i s → Covers i (cut_front s)
cut_front-Covers i s low c = elim (Bool-cases (ltb_ℤ s.dest (pos 0))) [
  | inl before ↦ rw before (record { from = low; to = omega int_laws })
  | inr after ↦ rw after c
]

cut_end-Covers : (size i : ℤ) (s : Span) → i <ℤ size → Covers i s → Covers i (cut_end size s)
cut_end-Covers size i s high c = elim (Bool-cases (ltb_ℤ size (s.dest +ℤ s.len))) [
  | inl over ↦ rw over (record { from = c.from; to = omega int_laws })
  | inr under ↦ rw under c
]

-- A damaged coordinate of the viewport lies in the span that `flip` copies.
span-Covers :
    (lo hi loc size i : ℤ)
    → between (pos 0) size i ≡ true
    → between lo hi (i +ℤ loc) ≡ true
    → Covers i (flip_span lo hi loc size)
unfolding flip_span
span-Covers lo hi loc size i v d =
    let (low, high) = between→le (pos 0) size i v in
    let (from, to) = between→le lo hi (i +ℤ loc) d in
    cut_end-Covers size i _ high (
      cut_front-Covers i (record { source = lo; len = hi -ℤ lo; dest = lo -ℤ loc }) low
        (record { from = omega int_laws; to = omega int_laws }))

-- A pixel of the copied rectangle is drawn from the buffer's.
copied : (loc i : ℤ) (s : Span) → IsAligned loc s → i -ℤ (s.dest -ℤ s.source) ≡ i +ℤ loc
copied loc i s a = eq_of_parts _ _ (omega int_laws)

show_inside :
    (h v : Span) (x y i j : ℤ) (back shown : Plane)
    → IsAligned x h
    → IsAligned y v
    → Covers i h
    → Covers j v
    → is_opaque (back (i +ℤ x) (j +ℤ y)) ≡ true
    → show h v back shown i j ≡ back (i +ℤ x) (j +ℤ y)
show_inside h v x y i j back shown ah av ci cj o =
    let some_w : ltb_ℤ (pos 0) h.len ≡ true = lt→ltb_ℤ (pos 0) h.len (omega int_laws) in
    let some_h : ltb_ℤ (pos 0) v.len ≡ true = lt→ltb_ℤ (pos 0) v.len (omega int_laws) in
    rw (some_w, some_h, le→between h.dest (h.dest +ℤ h.len) i ci.from ci.to)
      (rw (le→between v.dest (v.dest +ℤ v.len) j cj.from cj.to)
        (rw (copied x i h ah, copied y j v av) (over_opaque _ _ o)))

-- Elsewhere an opaque pixel is the buffer's or the one of before.
show_anywhere :
    (h v : Span) (x y i j : ℤ) (back shown : Plane)
    → IsAligned x h
    → IsAligned y v
    → is_opaque (back (i +ℤ x) (j +ℤ y)) ≡ true
    → shown i j ≡ back (i +ℤ x) (j +ℤ y)
    → show h v back shown i j ≡ back (i +ℤ x) (j +ℤ y)
show_anywhere h v x y i j back shown ah av o same =
    ground
      (arith, copied x i h ah, copied y j v av, over_opaque (back (i +ℤ x) (j +ℤ y)) (shown i j) o)

-- After `flip`, every opaque pixel of the viewport is shown, if it was so outside the damage.
pub flip_now-Shows :
    (d : View)
    → InSync d
    → (i j : ℤ) → in_viewport d i j ≡ true
    → opaque_at d i j ≡ true
    → Shows (flip_now d) i j
unfolding flip_now
flip_now-Shows d sync i j v o =
    let b = d.damage_bounds in
    let vp = d.viewport_loc in
    let h = flip_span b.left b.right vp.x vp.w in
    let t = flip_span b.top b.bottom vp.y vp.h in
    let ah = span-IsAligned b.left b.right vp.x vp.w in
    let at' = span-IsAligned b.top b.bottom vp.y vp.h in
    let (vi, vj) = both_true _ _ v in
    elim (Bool-cases (damaged b (i +ℤ vp.x) (j +ℤ vp.y))) [
      | inl hit ↦
          let (di, dj) = both_true _ _ hit in
          show_inside h t vp.x vp.y i j d.back d.shown ah at'
            (span-Covers b.left b.right vp.x vp.w i vi di)
            (span-Covers b.top b.bottom vp.y vp.h j vj dj) o
      | inr missed ↦
          show_anywhere h t vp.x vp.y i j d.back d.shown ah at' o (sync.shows i j v missed o)
    ]

-- No damage is left, so the viewport is in sync.
pub flip_now-InSync : (d : View) → InSync d → InSync (flip_now d)
unfolding flip_now
flip_now-InSync d sync = record { shows = λ i j v _ o. flip_now-Shows d sync i j v o }

between-wider :
    (lo hi lo' hi' i : ℤ)
    → lo' ≤ℤ lo
    → hi ≤ℤ hi'
    → between lo hi i ≡ true
    → between lo' hi' i ≡ true
between-wider lo hi lo' hi' i l u h =
    let (a, b) = between→le lo hi i h in le→between lo' hi' i (omega int_laws) (omega int_laws)

-- The damage holds the rectangle, and the damage of before.
damaged-rect :
    (r : Rect) (b : Bounds) (i j : ℤ) → inside r i j ≡ true → damaged (damage_by r b) i j ≡ true
damaged-rect r b i j h =
    let (hi, hj) = both_true _ _ h in
    let c = damage_by r b in
    rw (
      between-wider r.x (r.x +ℤ r.w) c.left c.right i (ground arith) (ground arith) hi,
      between-wider r.y (r.y +ℤ r.h) c.top c.bottom j (ground arith) (ground arith) hj,
    )

damaged-before :
    (r : Rect) (b : Bounds) (i j : ℤ) → damaged b i j ≡ true → damaged (damage_by r b) i j ≡ true
damaged-before r b i j h =
    let (hi, hj) = both_true _ _ h in
    let c = damage_by r b in
    rw (
      between-wider b.left b.right c.left c.right i (ground arith) (ground arith) hi,
      between-wider b.top b.bottom c.top c.bottom j (ground arith) (ground arith) hj,
    )

painted_pixel :
    (r : Rect) (new : Plane) (d : View) (i j : ℤ)
    → InSync d
    → in_viewport d i j ≡ true
    → damaged (damage_by r d.damage_bounds) (i +ℤ d.viewport_loc.x) (j +ℤ d.viewport_loc.y) ≡ false
    → is_opaque (paint r new d.back (i +ℤ d.viewport_loc.x) (j +ℤ d.viewport_loc.y)) ≡ true
    → d.shown i j ≡ paint r new d.back (i +ℤ d.viewport_loc.x) (j +ℤ d.viewport_loc.y)
painted_pixel r new d i j sync v fresh o =
    let x = i +ℤ d.viewport_loc.x in
    let y = j +ℤ d.viewport_loc.y in
    elim (Bool-cases (inside r x y)) [
      | inl hit ↦ cc (damaged-rect r d.damage_bounds x y hit)
      | inr out ↦ elim (Bool-cases (damaged d.damage_bounds x y)) [
        | inl old ↦ cc (damaged-before r d.damage_bounds x y old)
        | inr clean ↦ rw out (sync.shows i j v clean (rw out at o))
      ]
    ]

-- What is painted on the buffer is recorded.
pub paint-InSync :
    (r : Rect) (new : Plane) (d : View)
    → InSync d
    → InSync (damage r (record d { back = paint r new d.back }))
unfolding damage
paint-InSync r new d sync = record {
  shows = λ i j v fresh o. painted_pixel r new d i j sync v fresh o;
}

viewport_pixel :
    (d : View) (i j : ℤ)
    → in_viewport d i j ≡ true
    → damaged
        (damage_by d.viewport_loc d.damage_bounds)
        (i +ℤ d.viewport_loc.x)
        (j +ℤ d.viewport_loc.y)
      ≡ true
viewport_pixel d i j v =
    let vp = d.viewport_loc in
    let (vi, vj) = both_true _ _ v in
    let (li, ui) = between→le (pos 0) vp.w i vi in
    let (lj, uj) = between→le (pos 0) vp.h j vj in
    let hi = le→between vp.x (vp.x +ℤ vp.w) (i +ℤ vp.x) (omega int_laws) (omega int_laws) in
    let hj = le→between vp.y (vp.y +ℤ vp.h) (j +ℤ vp.y) (omega int_laws) (omega int_laws) in
    let hit : inside vp (i +ℤ vp.x) (j +ℤ vp.y) ≡ true = rw (hi, hj) in
    damaged-rect vp d.damage_bounds (i +ℤ vp.x) (j +ℤ vp.y) hit

-- A view whose whole viewport is recorded as damage is in sync, whatever it shows.
pub damaged_viewport-InSync : (d : View) → InSync (damage d.viewport_loc d)
unfolding damage
damaged_viewport-InSync d = record { shows = λ i j v fresh o. cc (fresh, viewport_pixel d i j v) }
