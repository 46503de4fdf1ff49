-- ===== src/Gesture/Counts.antt =====
-- How often a number occurs among the touches that core/input/gesturehandler.js keeps.
use proxmox_self_service_por.Prelude.{
  ℕ, ◌+◌, ◌≤◌, ◌≡◌, refl, ap, Bool, true, false, some, List, [], ◌∷◌, ◌++◌, ◌==◌, arith,
  if◌then◌else◌,
}
use proxmox_self_service_por.Gesture.Flags.{bit, invert}
use proxmox_self_service_por.Gesture.Touches.{
  Touch, find, update, some_active, has, remove, is_nil, active_ids,
}
use proxmox_self_service_por.Gesture.Handler.{release}

abbrev pub count : ℕ → List ℕ → ℕ
count k [] = 0
count k (j ∷ js) = bit (j == k) + count k js

abbrev pub ids : List Touch → List ℕ
ids [] = []
ids (t ∷ ts) = t.id ∷ ids ts

pub count-append : (k : ℕ) (is js : List ℕ) → count k (is ++ js) ≡ count k is + count k js
count-append k [] js = omega arith
count-append k (i ∷ is) js = omega (arith, count-append k is js)

pub has-count : (i : ℕ) (js : List ℕ) → has i js ≡ false → count i js ≡ 0
has-count i [] h = refl
has-count i (j ∷ js) h = grind (arith, has-count i js)

-- What `remove` takes away.
pub remove-count :
    (k i : ℕ) (js : List ℕ)
    → count k (remove i js) + (if has i js then bit (i == k) else 0) ≡ count k js
remove-count k i [] = refl
remove-count k i (j ∷ js) = grind (arith, remove-count k i js)

pub is_nil-count : (js : List ℕ) → ((k : ℕ) → count k js ≡ 0) → js ≡ []
is_nil-count [] h = refl
is_nil-count (j ∷ js) h = absurd (grind (arith, h j))

-- The change of a touch that keeps its number and tells as before if it is active.
pub record Steady (f : Touch → Touch) : Type 0 where
  pub same_id : (t : Touch) → (f t).id ≡ t.id
  pub same_active : (t : Touch) → (f t).active ≡ t.active

module _ {f : Touch → Touch} (steady : Steady f) where
  pub ids-update : (i : ℕ) (ts : List Touch) → ids (update i f ts) ≡ ids ts
  ids-update i [] = refl
  ids-update i (t ∷ ts) = go (t.id == i) (ids-update i ts)
    where
      go :
          (b : Bool)
          → ids (update i f ts) ≡ ids ts
          → ids ((if b then f t else t) ∷ (if b then ts else update i f ts)) ≡ ids (t ∷ ts)
      go true ih = ap (λ n. n ∷ ids ts) (steady.same_id t)
      go false ih = ap (λ ns. t.id ∷ ns) ih

  pub active_ids-update : (i : ℕ) (ts : List Touch) → active_ids (update i f ts) ≡ active_ids ts
  active_ids-update i [] = refl
  active_ids-update i (t ∷ ts) = go (t.id == i) (active_ids-update i ts)
    where
      go :
          (b : Bool)
          → active_ids (update i f ts) ≡ active_ids ts
          → active_ids ((if b then f t else t) ∷ (if b then ts else update i f ts))
            ≡ active_ids (t ∷ ts)
      go true ih = rw (steady.same_active t, steady.same_id t) refl
      go false ih = ap (λ ns. if t.active then t.id ∷ ns else ns) ih

pub active_ids-some : (ts : List Touch) → is_nil (active_ids ts) ≡ invert (some_active ts)
active_ids-some [] = refl
active_ids-some (t ∷ ts) = grind (arith, active_ids-some ts)

pub active-count : (k : ℕ) (ts : List Touch) → count k (active_ids ts) ≤ count k (ids ts)
active-count k [] = omega arith
active-count k (t ∷ ts) = grind (arith, active-count k ts)

pub ids-release : (i : ℕ) (ts : List Touch) → ids (update i release ts) ≡ ids ts
unfolding release
ids-release i [] = refl
ids-release i (t ∷ ts) = go (t.id == i) (ids-release i ts)
  where
    go :
        (b : Bool)
        → ids (update i release ts) ≡ ids ts
        → ids ((if b then release t else t) ∷ (if b then ts else update i release ts))
          ≡ ids (t ∷ ts)
    go true ih = refl
    go false ih = ap (λ ns. t.id ∷ ns) ih

-- The release of a touch that is tracked once, and active.
pub active_ids-release :
    (k i : ℕ) (ts : List Touch)
    → count i (ids ts) ≤ 1
    → 1 ≤ count i (active_ids ts)
    → count k (active_ids (update i release ts)) + bit (i == k) ≡ count k (active_ids ts)
unfolding release
active_ids-release k i [] o h = absurd (omega arith)
active_ids-release k i (t ∷ ts) o h = grind (arith, active-count i ts, active_ids-release k i ts)

pub find-count :
    (i : ℕ) (ts : List Touch) → 1 ≤ count i (ids ts) → (t : Touch) × (find i ts ≡ some t)
find-count i [] h = absurd (omega arith)
find-count i (t ∷ ts) h = go (t.id == i) h (find-count i ts)
  where
    go :
        (b : Bool)
        → 1 ≤ bit b + count i (ids ts)
        → (1 ≤ count i (ids ts) → (u : Touch) × (find i ts ≡ some u))
        → (u : Touch) × ((if b then some t else find i ts) ≡ some u)
    go true k ih = (t, refl)
    go false k ih = ih (omega arith)

pub ids-append : (ts us : List Touch) → ids (ts ++ us) ≡ ids ts ++ ids us
ids-append [] us = refl
ids-append (t ∷ ts) us = ap (λ ns. t.id ∷ ns) (ids-append ts us)

pub active_ids-append :
    (k : ℕ) (ts us : List Touch)
    → count k (active_ids (ts ++ us)) ≡ count k (active_ids ts) + count k (active_ids us)
active_ids-append k [] us = omega arith
active_ids-append k (t ∷ ts) us = grind (arith, active_ids-append k ts us)
