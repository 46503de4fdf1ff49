-- ===== src/Decoders/Takes.antt =====
-- Readers of the byte queue that take a known number of bytes: with as many there they succeed, and
-- bytes that come later make no difference to what they read.
use mathlib.Core.Path.{subst}
use proxmox_self_service_por.Prelude.{
  ℕ, zero, suc, ◌+◌, ◌≤◌, ◌≡◌, refl, ap, ◌∙◌, some, List, [], ◌∷◌, ◌++◌, arith, length, take, drop,
  length-append, length-drop, drop-drop,
}
use proxmox_self_service_por.ByteQueue.{Reader, pure, ◌>>=◌, shift8, shift16, shift32, shift_bytes}

-- A successful read: the value, what is left, and that later bytes stay behind it.
pub record Took {A : Type 0} (n : ℕ) (reader : Reader A) (q : List ℕ) : Type 0 where
  pub value : A
  pub left : List ℕ
  pub took : reader q ≡ some (value, left)
  pub rest_is : left ≡ drop n q
  pub count : length q ≡ n + length left
  pub later : (more : List ℕ) → reader (q ++ more) ≡ some (value, left ++ more)

abbrev pub Takes : {A : Type 0} → ℕ → Reader A → Type 0
Takes n reader = (q : List ℕ) → n ≤ length q → Took n reader q

pub pure-Takes : {A : Type 0} (a : A) → Takes 0 (pure a)
pure-Takes a q h = record {
  value = a;
  left = q;
  took = refl;
  rest_is = refl;
  count = omega arith;
  later = λ more. refl;
}

pub shift8-Takes : Takes 1 shift8
shift8-Takes [] h = absurd (omega arith)
shift8-Takes (x ∷ q) h = record {
  value = x;
  left = q;
  took = refl;
  rest_is = refl;
  count = omega arith;
  later = λ more. refl;
}

pub shift16-Takes : Takes 2 shift16
shift16-Takes [] h = absurd (omega arith)
shift16-Takes (x ∷ []) h = absurd (omega arith)
shift16-Takes (x ∷ y ∷ q) h = record {
  value = _;
  left = q;
  took = refl;
  rest_is = refl;
  count = omega arith;
  later = λ more. refl;
}

pub shift32-Takes : Takes 4 shift32
shift32-Takes [] h = absurd (omega arith)
shift32-Takes (x ∷ []) h = absurd (omega arith)
shift32-Takes (x ∷ y ∷ []) h = absurd (omega arith)
shift32-Takes (x ∷ y ∷ z ∷ []) h = absurd (omega arith)
shift32-Takes (x ∷ y ∷ z ∷ w ∷ q) h = record {
  value = _;
  left = q;
  took = refl;
  rest_is = refl;
  count = omega arith;
  later = λ more. refl;
}

pub take-append : (n : ℕ) (q more : List ℕ) → n ≤ length q → take n (q ++ more) ≡ take n q
take-append zero q more h = refl
take-append (suc n) [] more h = absurd (omega arith)
take-append (suc n) (x ∷ q) more h = ap (λ t. x ∷ t) (take-append n q more (omega arith))

drop-append : (n : ℕ) (q more : List ℕ) → n ≤ length q → drop n (q ++ more) ≡ drop n q ++ more
drop-append zero q more h = refl
drop-append (suc n) [] more h = absurd (omega arith)
drop-append (suc n) (x ∷ q) more h = drop-append n q more (omega arith)

pub shift_bytes-Takes : (n : ℕ) → Takes n (shift_bytes n)
shift_bytes-Takes n q h = record {
  value = take n q;
  left = drop n q;
  took = ground arith;
  rest_is = refl;
  count = omega (arith, length-drop n q);
  later =
      λ more. ground (arith, length-append q more, take-append n q more h, drop-append n q more h);
}

-- One read after another, at one queue.
pub >>=-Took :
    {A B : Type 0} (n m : ℕ) (reader : Reader A) (f : A → Reader B) {q : List ℕ}
    → (t : Took n reader q) → Took m (f t.value) t.left
    → Took (n + m) (reader >>= f) q
>>=-Took n m reader f {q} t u = record {
  value = u.value;
  left = u.left;
  took = rw (t.took, ◌>>=◌) u.took;
  rest_is = u.rest_is ∙ ap (drop m) t.rest_is ∙ drop-drop m n q;
  count = omega (arith, t.count, u.count);
  later = λ more. rw (t.later more, ◌>>=◌) (u.later more);
}

pub >>=-Takes :
    {A B : Type 0} (n m : ℕ) (reader : Reader A) (f : A → Reader B)
    → Takes n reader
    → ((a : A) → Takes m (f a))
    → Takes (n + m) (reader >>= f)
>>=-Takes n m reader f first second q h =
    let t = first q (omega arith) in
    >>=-Took n m reader f t (second t.value t.left (omega (arith, t.count)))

pub Takes-eq : {A : Type 0} {n m : ℕ} (reader : Reader A) → n ≡ m → Takes n reader → Takes m reader
Takes-eq reader e t = subst (λ k. Takes k reader) e t
