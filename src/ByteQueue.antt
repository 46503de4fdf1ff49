-- ===== src/ByteQueue.antt =====
-- What core/websock.js promises to a reader of its receive queue: a queue of bytes. The decoders
-- and the protocol code are modelled over it. A read past the last byte is `none`: the program would
-- read what an earlier message left in the array.
use proxmox_self_service_por.Prelude.{
  ℕ, ◌+◌, ◌*◌, ◌/◌, ◌%◌, ◌≡◌, refl, ap, ◌++◌, arith, length-append, Bool, false, Option, none, some,
  List, [], ◌∷◌, ltb, if◌then◌else◌, length, take, drop,
}

-- A reader takes its value from the front and leaves the rest.
abbrev pub Reader : Type 0 → Type 0
Reader A = List ℕ → Option (A × List ℕ)

abbrev pub pure : {A : Type 0} → A → Reader A
pure a q = some (a, q)

infixl 5 ◌>>=◌ ◌>>◌
abbrev pub ◌>>=◌ : {A B : Type 0} → Reader A → (A → Reader B) → Reader B
◌>>=◌ m f q = elim (m q) [ none ↦ none | some (a, q') ↦ f a q' ]

-- `rQwait` without `goback`: true if fewer than `num` bytes are there
abbrev pub wait : List ℕ → ℕ → Bool
wait q num = ltb (length q) num

abbrev pub peek8 : List ℕ → Option ℕ
peek8 [] = none
peek8 (x ∷ q) = some x

abbrev pub shift8 : Reader ℕ
shift8 [] = none
shift8 (x ∷ q) = some (x, q)

abbrev pub shift16 : Reader ℕ
shift16 (a ∷ b ∷ q) = some (a * 256 + b, q)
shift16 _ = none

abbrev pub shift32 : Reader ℕ
shift32 (a ∷ b ∷ c ∷ d ∷ q) = some (a * 16777216 + b * 65536 + c * 256 + d, q)
shift32 _ = none

-- `rQshiftBytes` and `rQpeekBytes`
abbrev pub shift_bytes : ℕ → Reader (List ℕ)
shift_bytes len q = if ltb (length q) len then none else some (take len q, drop len q)

abbrev pub peek_bytes : ℕ → List ℕ → Option (List ℕ)
peek_bytes len q = if ltb (length q) len then none else some (take len q)

-- a number as two and as four bytes, the highest first
abbrev pub be16 : ℕ → List ℕ
be16 n = n / 256 ∷ n % 256 ∷ []

abbrev pub be32 : ℕ → List ℕ
be32 n = n / 16777216 ∷ n / 65536 % 256 ∷ n / 256 % 256 ∷ n % 256 ∷ []

pub word16 : (n : ℕ) → n / 256 * 256 + n % 256 ≡ n
word16 n = omega arith

pub word32 :
    (n : ℕ) → n / 16777216 * 16777216 + n / 65536 % 256 * 65536 + n / 256 % 256 * 256 + n % 256 ≡ n
word32 n = omega arith

pub shift16-be16 : (n : ℕ) (q : List ℕ) → shift16 (be16 n ++ q) ≡ some (n, q)
shift16-be16 n q = ground arith

pub shift32-be32 : (n : ℕ) (q : List ℕ) → shift32 (be32 n ++ q) ≡ some (n, q)
shift32-be32 n q = ground arith

take-length : (xs ys : List ℕ) → take (length xs) (xs ++ ys) ≡ xs
take-length [] ys = refl
take-length (x ∷ xs) ys = ap (λ t. x ∷ t) (take-length xs ys)

drop-length : (xs ys : List ℕ) → drop (length xs) (xs ++ ys) ≡ ys
drop-length [] ys = refl
drop-length (x ∷ xs) ys = drop-length xs ys

pub shift_bytes-append :
    (xs q : List ℕ) {n : ℕ} → length xs ≡ n → shift_bytes n (xs ++ q) ≡ some (xs, q)
shift_bytes-append xs q {n} e =
    let enough : ltb (length (xs ++ q)) (length xs) ≡ false = ground (arith, length-append xs q) in
    rw (← e, enough, take-length, drop-length)

-- a read whose value is not used
abbrev pub ◌>>◌ : {A B : Type 0} → Reader A → Reader B → Reader B
◌>>◌ m k = m >>= λ _. k
