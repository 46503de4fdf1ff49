-- ===== src/Gesture/Touches.antt =====
-- The touches that core/input/gesturehandler.js tracks, and its measures of them. Coordinates are
-- integers, and the real numbers are exact: a mean is a fraction, a length goes by its square and an
-- angle by its direction, where the source rounds.
use proxmox_self_service_por.Prelude.{
  ℕ, ◌+◌, ◌-◌, ◌*◌, Bool, true, false, ◌&&◌, Option, none, some, List, [], ◌∷◌, ◌==◌, ltb, length,
  if◌then◌else◌,
}
use proxmox_self_service_por.Prelude.Int.{ℤ, pos, pos_part, neg_part, ◌+ℤ◌, ◌-ℤ◌, ◌*ℤ◌, ltb_ℤ}

-- `angle` is the direction (angle_x, angle_y); the angle 0 is (1, 0).
pub record Touch : Type 0 where
  pub id : ℕ
  pub started : ℕ
  pub active : Bool
  pub first_x : ℤ
  pub first_y : ℤ
  pub last_x : ℤ
  pub last_y : ℤ
  pub angle_x : ℤ
  pub angle_y : ℤ

abbrev pub new_touch : ℕ → ℤ → ℤ → ℕ → Touch
new_touch id x y now = record {
  id = id;
  started = now;
  active = true;
  first_x = x;
  first_y = y;
  last_x = x;
  last_y = y;
  angle_x = pos 1;
  angle_y = pos 0;
}

abbrev pub abs : ℤ → ℕ
abs z = pos_part z + neg_part z

-- the square of `Math.hypot`
abbrev pub hypot² : ℤ → ℤ → ℕ
hypot² x y = abs x * abs x + abs y * abs y

abbrev pub is_zero : ℤ → Bool
is_zero z = abs z == 0

-- the new position of a touch, and its angle if it is not where it began
unfoldable pub move_to : ℤ → ℤ → Touch → Touch
move_to x y t =
    let dx = x -ℤ t.first_x in
    let dy = y -ℤ t.first_y in
    let t' = record t { last_x = x; last_y = y } in
    if is_zero dx && is_zero dy then t' else record t' { angle_x = dx; angle_y = dy }

-- Is the angle between the directions more than 90 degrees?
abbrev pub is_opposite : Touch → Touch → Bool
is_opposite t u = ltb_ℤ (t.angle_x *ℤ u.angle_x +ℤ t.angle_y *ℤ u.angle_y) (pos 0)

-- `GH_MOVE_THRESHOLD` is 50.
abbrev pub moved_less : Touch → Bool
moved_less t = ltb (hypot² (t.last_x -ℤ t.first_x) (t.last_y -ℤ t.first_y)) (50 * 50)

abbrev pub moved_more : Touch → Bool
moved_more t = ltb (50 * 50) (hypot² (t.first_x -ℤ t.last_x) (t.first_y -ℤ t.last_y))

-- `find(t => t.id === id)` and `find(t => t.id !== id)`
abbrev pub find : ℕ → List Touch → Option Touch
find i [] = none
find i (t ∷ ts) = if t.id == i then some t else find i ts

abbrev pub find_other : ℕ → List Touch → Option Touch
find_other i [] = none
find_other i (t ∷ ts) = if t.id == i then find_other i ts else some t

-- a change of the touch that `find` gives
abbrev pub update : ℕ → (Touch → Touch) → List Touch → List Touch
update i f [] = []
update i f (t ∷ ts) = (if t.id == i then f t else t) ∷ (if t.id == i then ts else update i f ts)

-- `some(t => t.active)` and `some(t => now - t.started > limit)`
abbrev pub some_active : List Touch → Bool
some_active [] = false
some_active (t ∷ ts) = if t.active then true else some_active ts

abbrev pub some_older : ℕ → ℕ → List Touch → Bool
some_older limit now [] = false
some_older limit now (t ∷ ts) =
    if ltb limit (now - t.started) then true else some_older limit now ts

-- `_ignored`: `indexOf(id) !== -1`, and the `splice` of its first place
abbrev pub has : ℕ → List ℕ → Bool
has i [] = false
has i (j ∷ js) = if j == i then true else has i js

abbrev pub remove : ℕ → List ℕ → List ℕ
remove i [] = []
remove i (j ∷ js) = if j == i then js else j ∷ remove i js

abbrev pub is_nil : List ℕ → Bool
is_nil [] = true
is_nil (j ∷ js) = false

abbrev pub active_ids : List Touch → List ℕ
active_ids [] = []
active_ids (t ∷ ts) = if t.active then t.id ∷ active_ids ts else active_ids ts

-- A mean: a sum over a number of touches.
pub record Fraction : Type 0 where
  pub total : ℤ
  pub size : ℕ

pub record Point : Type 0 where
  pub x : Fraction
  pub y : Fraction

abbrev pub sum : (Touch → ℤ) → List Touch → ℤ
sum f [] = pos 0
sum f (t ∷ ts) = f t +ℤ sum f ts

abbrev pub mean : (Touch → ℤ) → List Touch → Fraction
mean f ts = record { total = sum f ts; size = length ts }

-- `_getPosition` and `_getAverageMovement`, where there is a touch
abbrev pub first_position : List Touch → Point
first_position ts = record { x = mean (λ t. t.first_x) ts; y = mean (λ t. t.first_y) ts }

abbrev pub last_position : List Touch → Point
last_position ts = record { x = mean (λ t. t.last_x) ts; y = mean (λ t. t.last_y) ts }

abbrev pub average_movement : List Touch → Point
average_movement ts = record {
  x = mean (λ t. t.last_x -ℤ t.first_x) ts;
  y = mean (λ t. t.last_y -ℤ t.first_y) ts;
}

-- `_getAverageDistance`: between the first and the last of the touches, as they began and now
abbrev pub last_touch : Touch → List Touch → Touch
last_touch t [] = t
last_touch t (u ∷ us) = last_touch u us

abbrev pub whole : ℕ → Fraction
whole n = record { total = pos n; size = 1 }

pub record Distance : Type 0 where
  pub first_dx : ℕ
  pub first_dy : ℕ
  pub last_dx : ℕ
  pub last_dy : ℕ

abbrev pub distance : Touch → List Touch → Distance
distance t ts =
    let u = last_touch t ts in
    record {
      first_dx = abs (u.first_x -ℤ t.first_x);
      first_dy = abs (u.first_y -ℤ t.first_y);
      last_dx = abs (u.last_x -ℤ t.last_x);
      last_dy = abs (u.last_y -ℤ t.last_y);
    }

-- Is m / n less than |√a - √b|, for n > 0? Both sides squared, and what is left of the roots again.
abbrev pub less_than_gap : ℕ → ℕ → ℕ → ℕ → Bool
less_than_gap m n a b =
    let s = n * n * (a + b) in
    let rest = s - m * m in ltb (m * m) s && ltb (4 * (n * n * a) * (n * n * b)) (rest * rest)

-- Do the touches move apart, or together, by more than they move?
unfoldable pub is_pinching : Touch → List Touch → Bool
is_pinching t ts =
    let ms = average_movement (t ∷ ts) in
    let d = distance t ts in
    let a = d.first_dx * d.first_dx + d.first_dy * d.first_dy in
    let b = d.last_dx * d.last_dx + d.last_dy * d.last_dy in
    less_than_gap (abs ms.y.total) ms.y.size a b && less_than_gap (abs ms.x.total) ms.x.size a b
