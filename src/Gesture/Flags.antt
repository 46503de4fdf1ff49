-- ===== src/Gesture/Flags.antt =====
-- The bit mask `_state` of core/input/gesturehandler.js as seven flags, from the lowest bit up.
use proxmox_self_service_por.Prelude.{
  ℕ, ◌+◌, ◌*◌, Bool, true, false, ◌&&◌, ◌||◌, Option, none, some, ◌==◌, if◌then◌else◌,
}

pub data Gesture : Type 0 where
  onetap twotap threetap drag longpress twodrag pinch : Gesture

pub record Flags : Type 0 where
  pub has_onetap : Bool
  pub has_twotap : Bool
  pub has_threetap : Bool
  pub has_drag : Bool
  pub has_longpress : Bool
  pub has_twodrag : Bool
  pub has_pinch : Bool

abbrev pub flags : Bool → Bool → Bool → Bool → Bool → Bool → Bool → Flags
flags a b c d e f g = record {
  has_onetap = a;
  has_twotap = b;
  has_threetap = c;
  has_drag = d;
  has_longpress = e;
  has_twodrag = f;
  has_pinch = g;
}

abbrev pub no_gesture : Flags
no_gesture = flags false false false false false false false

abbrev pub init_state : Flags
init_state = flags true true true true true true true

-- the bit of a gesture
abbrev pub flag : Gesture → Flags
flag onetap = flags true false false false false false false
flag twotap = flags false true false false false false false
flag threetap = flags false false true false false false false
flag drag = flags false false false true false false false
flag longpress = flags false false false false true false false
flag twodrag = flags false false false false false true false
flag pinch = flags false false false false false false true

-- `a & b`, `a | b` and `a & ~b`
abbrev pub meet : Flags → Flags → Flags
meet p q =
    flags (p.has_onetap && q.has_onetap) (p.has_twotap && q.has_twotap)
      (p.has_threetap && q.has_threetap) (p.has_drag && q.has_drag)
      (p.has_longpress && q.has_longpress) (p.has_twodrag && q.has_twodrag)
      (p.has_pinch && q.has_pinch)

abbrev pub join : Flags → Flags → Flags
join p q =
    flags (p.has_onetap || q.has_onetap) (p.has_twotap || q.has_twotap)
      (p.has_threetap || q.has_threetap) (p.has_drag || q.has_drag)
      (p.has_longpress || q.has_longpress) (p.has_twodrag || q.has_twodrag)
      (p.has_pinch || q.has_pinch)

abbrev pub invert : Bool → Bool
invert true = false
invert false = true

abbrev pub drop_flags : Flags → Flags → Flags
drop_flags p q = meet p (
    flags (invert q.has_onetap) (invert q.has_twotap) (invert q.has_threetap) (invert q.has_drag)
      (invert q.has_longpress) (invert q.has_twodrag) (invert q.has_pinch))

abbrev pub some_flag : Flags → Bool
some_flag p =
    p.has_onetap || p.has_twotap || p.has_threetap || p.has_drag || p.has_longpress || p.has_twodrag
    || p.has_pinch

-- The mask as a number, and `_state - 1`: a borrow goes up to the lowest bit that is set.
abbrev pub bit : Bool → ℕ
bit true = 1
bit false = 0

abbrev pub mask : Flags → ℕ
mask p =
    bit p.has_onetap
    + 2 * bit p.has_twotap
    + 4 * bit p.has_threetap
    + 8 * bit p.has_drag
    + 16 * bit p.has_longpress
    + 32 * bit p.has_twodrag
    + 64 * bit p.has_pinch

abbrev pub borrow : Bool → Bool → Bool
borrow lower b = if lower then b else invert b

abbrev pub minus_one : Flags → Flags
minus_one p =
    let a = p.has_onetap in
    let b = a || p.has_twotap in
    let c = b || p.has_threetap in
    let d = c || p.has_drag in
    let e = d || p.has_longpress in
    let f = e || p.has_twodrag in
    flags (invert a) (borrow a p.has_twotap) (borrow b p.has_threetap) (borrow c p.has_drag)
      (borrow d p.has_longpress) (borrow e p.has_twodrag) (borrow f p.has_pinch)

-- `_state !== 0 && !(_state & (_state - 1))`
unfoldable pub is_single : Flags → Bool
is_single p = if some_flag p then invert (some_flag (meet p (minus_one p))) else false

-- `_stateToGesture`; `none` where the source throws
unfoldable pub state_to_gesture : Flags → Option Gesture
state_to_gesture p =
    let m = mask p in
    if m == 1
    then some onetap
    else if m == 2
    then some twotap
    else if m == 4
    then some threetap
    else if m == 8
    then some drag
    else if m == 16
    then some longpress
    else if m == 32
    then some twodrag
    else if m == 64
    then some pinch
    else none
