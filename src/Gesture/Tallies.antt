-- ===== src/Gesture/Tallies.antt =====
-- The book of the touches through the steps of core/input/gesturehandler.js.
use proxmox_self_service_por.Prelude.{
  ℕ, ◌+◌, ◌≡◌, refl, Bool, true, false, some, List, [], ◌∷◌, ◌++◌, ◌==◌, arith,
}
use proxmox_self_service_por.Prelude.Int.{ℤ}
use proxmox_self_service_por.Gesture.Flags.{bit}
use proxmox_self_service_por.Gesture.Touches.{
  Touch, new_touch, find, update, has, remove, active_ids,
}
use proxmox_self_service_por.Gesture.Handler.{release}
use proxmox_self_service_por.Gesture.Counts.{
  count, ids, count-append, has-count, remove-count, Steady, ids-update, active_ids-update,
  active-count, find-count, ids-release, active_ids-release, ids-append, active_ids-append,
}
use proxmox_self_service_por.Gesture.Stage.{Tally}

module _ {down js : List ℕ} {ts : List Touch} {w : Bool} (b : Tally down js ts w) where
  pub ignore-Tally : (id : ℕ) → Tally (id ∷ down) (js ++ (id ∷ [])) ts w
  ignore-Tally id = record {
    split = λ i. omega (arith, b.split i, count-append i js (id ∷ []));
    once = b.once;
    present = b.present;
  }

  pub track-Tally :
      (id : ℕ) (x y : ℤ) (now : ℕ)
      → w ≡ false
      → count id down ≡ 0
      → Tally (id ∷ down) js (ts ++ (new_touch id x y now ∷ [])) w
  track-Tally id x y now clear new =
      let us = new_touch id x y now ∷ [] in
      let all : (i : ℕ) → count i (ids (ts ++ us)) ≡ count i (ids ts) + bit (id == i) =
        λ i. rw (ids-append ts us) (omega (arith, count-append i (ids ts) (id ∷ []))) in
      let act : (i : ℕ)
          → count i (active_ids (ts ++ us)) ≡ count i (active_ids ts) + bit (id == i) =
        λ i. omega (arith, active_ids-append i ts us) in
      record {
        split = λ i. omega (arith, b.split i, act i);
        once = λ i. grind (arith, b.once i, b.split i, b.present clear i, all i);
        present = λ e i. omega (arith, b.present clear i, all i, act i);
      }

  pub move-Tally : {f : Touch → Touch} → Steady f → (id : ℕ) → Tally down js (update id f ts) w
  move-Tally s id = record {
    split = λ i. rw (active_ids-update s id ts) (b.split i);
    once = λ i. rw (ids-update s id ts) (b.once i);
    present = λ e i. rw (active_ids-update s id ts, ids-update s id ts) (b.present e i);
  }

  -- the end of a touch: one that is ignored, one that is tracked, and what cleaning up makes of both
  pub unignore-Tally :
      (id : ℕ) → has id down ≡ true → has id js ≡ true → Tally (remove id down) (remove id js) ts w
  unignore-Tally id d h = record {
    split = λ i. grind (arith, b.split i, remove-count i id down, remove-count i id js);
    once = b.once;
    present = b.present;
  }

  pub tracked-once :
      (id : ℕ) → has id down ≡ true → has id js ≡ false → count id (active_ids ts) ≡ 1
  tracked-once id d h =
      grind
        (arith, b.split id, b.once id, remove-count id id down, has-count id js, active-count id ts)

  pub release-Tally :
      (id : ℕ)
      → has id down ≡ true
      → has id js ≡ false
      → Tally (remove id down) js (update id release ts) true
  release-Tally id d h =
      let k = tracked-once id d h in
      record {
        split = λ i.
            grind
              (arith, k, b.split i, b.once id, remove-count i id down, active_ids-release i id ts);
        once = λ i. rw (ids-release id ts) (b.once i);
        present = λ e. absurd (cc e);
      }

  pub clean-Tally :
      (id : ℕ) (w' : Bool)
      → has id down ≡ true
      → Tally (remove id down) (remove id (js ++ active_ids ts)) [] w'
  clean-Tally id w' d = record {
    split = λ i. grind (
      arith,
      b.split i,
      b.split id,
      remove-count i id down,
      remove-count id id down,
      has-count id (js ++ active_ids ts),
      count-append i js (active_ids ts),
      count-append id js (active_ids ts),
      remove-count i id (js ++ active_ids ts),
    );
    once = λ i. omega arith;
    present = λ e i. refl;
  }

  pub gone-Tally :
      (id : ℕ) (w' : Bool) → count id down ≡ 0 → Tally down (remove id (js ++ active_ids ts)) [] w'
  gone-Tally id w' z = record {
    split = λ i. grind (
      arith,
      z,
      b.split i,
      b.split id,
      count-append i js (active_ids ts),
      count-append id js (active_ids ts),
      remove-count i id (js ++ active_ids ts),
      remove-count id id (js ++ active_ids ts),
    );
    once = λ i. omega arith;
    present = λ e i. refl;
  }

  pub released-gone :
      (id : ℕ) → has id down ≡ true → has id js ≡ false → count id (remove id down) ≡ 0
  released-gone id d h =
      grind (arith, tracked-once id d h, b.split id, has-count id js, remove-count id id down)

  pub found :
      (id : ℕ) → has id down ≡ true → has id js ≡ false → (t : Touch) × (find id ts ≡ some t)
  found id d h = find-count id ts (omega (arith, tracked-once id d h, active-count id ts))
