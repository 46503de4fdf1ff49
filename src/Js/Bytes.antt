-- ===== src/Js/Bytes.antt =====
-- A Uint8Array: a fixed number of cells. A function from indices stands for the cells, so that an
-- array of several megabytes is built at once; what it says past `size` is never read.
use Prim.Native.Nat.{min}
use mathlib.Core.Path.{ap₂}
use native.Mathlib.Nat.{add-zero, zero-add}
use proxmox_self_service_por.Prelude.{
  ℕ, zero, suc, ◌+◌, ◌-◌, ◌%◌, ◌≤◌, ◌<◌, ◌≡◌, refl, sym, ap, ◌∙◌, Option, none, some, List, [], ◌∷◌,
  ◌++◌, arith, ltb, leb, ◌==◌, if◌then◌else◌, length, get_or, take, drop,
}

pub record Uint8Array : Type 0 where
  pub size : ℕ
  pub cell : ℕ → ℕ

-- `new Uint8Array(n)`
abbrev pub new_array : ℕ → Uint8Array
new_array n = record { size = n; cell = λ _. 0 }

-- the `n` cells from `i` on
abbrev pub window : (ℕ → ℕ) → ℕ → ℕ → List ℕ
window f i zero = []
window f i (suc n) = f i ∷ window f (suc i) n

-- `a.slice(start, end)`, and the contents of `a.subarray(start, end)`
abbrev pub slice : Uint8Array → ℕ → ℕ → List ℕ
slice a start end = window a.cell start (min end a.size - start)

-- `a[i] = v`: reduced to a byte, and dropped out of range
abbrev pub store : Uint8Array → ℕ → ℕ → Uint8Array
store a i v = record a {
  cell = λ k. if k == i then (if ltb i a.size then v % 256 else a.cell k) else a.cell k;
}

-- the cells with the bytes `xs` written from `off` on
abbrev pub overlay : (ℕ → ℕ) → List ℕ → ℕ → ℕ → ℕ
overlay f xs off k =
    if leb off k then (if ltb k (off + length xs) then get_or xs (k - off) 0 else f k) else f k

-- `a.set(xs, off)`; `none` is the RangeError
abbrev pub set_bytes : Uint8Array → List ℕ → ℕ → Option Uint8Array
set_bytes a xs off =
    if leb (off + length xs) a.size then some (record a { cell = overlay a.cell xs off }) else none

-- `a.copyWithin(0, start, end)`
abbrev pub copy_within : Uint8Array → ℕ → ℕ → Uint8Array
copy_within a start end = record a {
  cell = λ k. if ltb k (min end a.size - start) then a.cell (k + start) else a.cell k;
}

pub length-window : (f : ℕ → ℕ) (i n : ℕ) → length (window f i n) ≡ n
length-window f i zero = refl
length-window f i (suc n) = ap suc (length-window f (suc i) n)

add-suc_left : (m k : ℕ) → m + suc k ≡ suc m + k
add-suc_left m k = omega arith

-- Cells that agree over the range give the same window.
pub window_ext :
    (f g : ℕ → ℕ) (i j n : ℕ)
    → ((k : ℕ) → k < n → f (i + k) ≡ g (j + k))
    → window f i n ≡ window g j n
window_ext f g i j zero h = refl
window_ext f g i j (suc n) h = ap₂ ◌∷◌ (rw (add-zero, add-zero) at (h 0 (omega arith))) (
    window_ext f g (suc i) (suc j) n
      (λ k lt. ap f (sym (add-suc_left i k)) ∙ h (suc k) (omega arith) ∙ ap g (add-suc_left j k)))

pub window_split : (f : ℕ → ℕ) (i a b : ℕ) → window f i (a + b) ≡ window f i a ++ window f (i + a) b
window_split f i zero b = rw (zero-add, add-zero)
window_split f i (suc a) b =
    let e : suc a + b ≡ suc (a + b) = omega arith in
    let e' : i + suc a ≡ suc i + a = omega arith in
    rw (e, e') (ap (λ t. f i ∷ t) (window_split f (suc i) a b))

pub take-append_length {ℓ} : {A : Type ℓ} (xs ys : List A) → take (length xs) (xs ++ ys) ≡ xs
take-append_length [] ys = refl
take-append_length (x ∷ xs) ys = ap (λ t. x ∷ t) (take-append_length xs ys)

pub drop-append_length {ℓ} : {A : Type ℓ} (xs ys : List A) → drop (length xs) (xs ++ ys) ≡ ys
drop-append_length [] ys = refl
drop-append_length (x ∷ xs) ys = drop-append_length xs ys

pub take-window : (f : ℕ → ℕ) (i a b : ℕ) → take a (window f i (a + b)) ≡ window f i a
take-window f i a b =
    rw (window_split f i a b)
      (rw (length-window f i a) at (take-append_length (window f i a) (window f (i + a) b)))

pub drop-window : (f : ℕ → ℕ) (i a b : ℕ) → drop a (window f i (a + b)) ≡ window f (i + a) b
drop-window f i a b =
    rw (window_split f i a b)
      (rw (length-window f i a) at (drop-append_length (window f i a) (window f (i + a) b)))

get_or-window :
    (xs : List ℕ) (g : ℕ → ℕ) (i : ℕ)
    → ((k : ℕ) → k < length xs → g (i + k) ≡ get_or xs k 0)
    → window g i (length xs) ≡ xs
get_or-window [] g i h = refl
get_or-window (x ∷ xs) g i h =
    λ t. (rw add-zero at (h 0 (omega arith))) t ∷ get_or-window xs g (suc i) step t
  where
    step : (k : ℕ) → k < length xs → g (suc i + k) ≡ get_or xs k 0
    step k lt = let e : suc i + k ≡ i + suc k = omega arith in rw e (h (suc k) (omega arith))

-- What was written is read back.
pub window-overlay :
    (f : ℕ → ℕ) (xs : List ℕ) (off : ℕ) → window (overlay f xs off) off (length xs) ≡ xs
window-overlay f xs off = get_or-window xs (overlay f xs off) off inside
  where
    back : (k : ℕ) → off + k - off ≡ k
    back k = omega arith

    inside : (k : ℕ) → k < length xs → overlay f xs off (off + k) ≡ get_or xs k 0
    inside k lt = ground (arith, back k)

-- A write leaves what stands before it.
pub window-overlay_before :
    (f : ℕ → ℕ) (xs : List ℕ) (off i n : ℕ)
    → i + n ≤ off
    → window (overlay f xs off) i n ≡ window f i n
window-overlay_before f xs off i n h = window_ext (overlay f xs off) f i i n (λ k lt. ground arith)
