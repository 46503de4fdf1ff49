-- ===== src/Display/Bounds.antt =====
-- Where `viewportChangePos`, `viewportChangeSize` and `resize` of core/display.js leave the viewport.
use proxmox_self_service_por.Prelude.{◌≡◌, inl, inr, Bool, true, false, ◌&&◌, arith, Bool-cases}
use proxmox_self_service_por.Prelude.Int.{
  ℤ, pos, ◌+ℤ◌, ◌-ℤ◌, ◌≤ℤ◌, ◌<ℤ◌, ltb_ℤ, int_laws, ltb_ℤ→lt, ltb_ℤ→le,
}
use proxmox_self_service_por.Display.Viewport.{low_x, low_y, high, wanted}

-- Along one side, the viewport of size `w` at `x` lies in the framebuffer of size `fb`.
pub record Fits (fb x w : ℤ) : Type 0 where
  pub low : pos 0 ≤ℤ x
  pub size : pos 0 ≤ℤ w
  pub end : (x +ℤ w) ≤ℤ fb

-- The viewport is no larger than the framebuffer, wherever it is.
pub record Smaller (fb x w : ℤ) : Type 0 where
  pub low : pos 0 ≤ℤ x
  pub size : pos 0 ≤ℤ w
  pub room : w ≤ℤ fb

low_x-bound : (x delta : ℤ) → pos 0 ≤ℤ x → pos 0 ≤ℤ (x +ℤ low_x x delta)
low_x-bound x delta l = elim (Bool-cases (ltb_ℤ delta (pos 0))) [
  | inl back ↦ elim (Bool-cases (ltb_ℤ (x +ℤ delta) (pos 0))) [
    | inl out ↦ rw (back, out) (omega int_laws)
    | inr fine ↦
        let k : pos 0 ≤ℤ (x +ℤ delta) = ltb_ℤ→le (x +ℤ delta) (pos 0) fine in rw (back, fine) k
  ]
  | inr on ↦ let k = ltb_ℤ→le delta (pos 0) on in rw on (omega int_laws)
]

low_y-bound : (y delta : ℤ) → pos 0 ≤ℤ (y +ℤ low_y y delta)
low_y-bound y delta = elim (Bool-cases (ltb_ℤ (y +ℤ delta) (pos 0))) [
  | inl out ↦ rw out (omega int_laws)
  | inr fine ↦ let k : pos 0 ≤ℤ (y +ℤ delta) = ltb_ℤ→le (y +ℤ delta) (pos 0) fine in rw fine k
]

high-Fits :
    (fb x w d : ℤ)
    → Smaller fb x w
    → pos 0 ≤ℤ (x +ℤ d)
    → Fits fb (x +ℤ high fb (x +ℤ w -ℤ pos 1) d) w
high-Fits fb x w d s l =
    let last = x +ℤ w -ℤ pos 1 +ℤ d in
    let size : pos 0 ≤ℤ w = s.size in
    let room : w ≤ℤ fb = s.room in
    elim (Bool-cases (ltb_ℤ last fb)) [
      | inl fine ↦
          let k : last <ℤ fb = ltb_ℤ→lt last fb fine in
          let fits : Fits fb (x +ℤ d) w = record { low = l; size = size; end = omega int_laws } in
          rw fine fits
      | inr out ↦
          let k : fb ≤ℤ last = ltb_ℤ→le last fb out in
          let back = d -ℤ (last -ℤ fb +ℤ pos 1) in
          let fits : Fits fb (x +ℤ back) w = record {
            low = omega int_laws;
            size = size;
            end = omega int_laws;
          } in
          rw out fits
    ]

-- One side after `viewportChangePos`.
pub delta_x-Fits :
    (fb x w delta : ℤ) → Smaller fb x w → Fits fb (x +ℤ high fb (x +ℤ w -ℤ pos 1) (low_x x delta)) w
delta_x-Fits fb x w delta s = high-Fits fb x w (low_x x delta) s (low_x-bound x delta s.low)

pub delta_y-Fits :
    (fb y h delta : ℤ) → Smaller fb y h → Fits fb (y +ℤ high fb (y +ℤ h -ℤ pos 1) (low_y y delta)) h
delta_y-Fits fb y h delta s = high-Fits fb y h (low_y y delta) s (low_y-bound y delta)

pub Fits-Smaller : (fb x w : ℤ) → Fits fb x w → Smaller fb x w
Fits-Smaller fb x w f =
    let low : pos 0 ≤ℤ x = f.low in
    let end : (x +ℤ w) ≤ℤ fb = f.end in record { low = low; size = f.size; room = omega int_laws }

-- One side after `viewportChangeSize` has set the size.
pub wanted-Smaller :
    (clip : Bool) (fb x size : ℤ)
    → pos 0 ≤ℤ x
    → pos 0 ≤ℤ fb
    → pos 0 ≤ℤ size
    → Smaller fb x (wanted clip fb size)
wanted-Smaller false fb x size l f s = record { low = l; size = f; room = omega arith }
wanted-Smaller true fb x size l f s = elim (Bool-cases (ltb_ℤ fb size)) [
  | inl more ↦
      let all : Smaller fb x fb = record { low = l; size = f; room = omega arith } in rw more all
  | inr less ↦
      let k : size ≤ℤ fb = ltb_ℤ→le fb size less in
      let part : Smaller fb x size = record { low = l; size = s; room = k } in rw less part
]

pub both_true : (a b : Bool) → (a && b) ≡ true → (a ≡ true) × (b ≡ true)
both_true a b h = ground arith
