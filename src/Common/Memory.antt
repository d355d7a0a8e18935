-- ===== src/Common/Memory.antt =====
-- C memory: an array is a list of bytes, and an access outside it (undefined in C) is `none`.
use Prim.Native.Nat.{ℕ, zero, suc, ◌+◌, ◌≤◌, ◌<◌}
use mathlib.Core.Path.{◌≡◌, refl, ap, sym, ◌∙◌}
use mathlib.Core.Bool.{Bool, true, false, ◌&&◌}
use mathlib.Core.Logic.{◌↔◌, ◌≢◌, inl, inr}
use mathlib.Core.List.{List, [], ◌∷◌, ◌++◌}
use mathlib.Core.Option.{Option, none, some}
use native.Mathlib.Omega.{arith}
use pico_common.Common.Tests.{ltb, lt→ltb, ◌==◌, if◌then◌else◌, Option-cases}
use pico_common.Common.Lists.{length, get_elem?, set, take, drop, overwrite, length-set}

infixl 5 ◌>>=◌
abbrev pub ◌>>=◌ {ℓ κ} : {A : Type ℓ} {B : Type κ} → Option A → (A → Option B) → Option B
none >>= f = none
some a >>= f = f a

-- `buf[i] = v`.
unfoldable pub store : List ℕ → ℕ → ℕ → Option (List ℕ)
store buf i v = if ltb i (length buf) then some (set buf i v) else none

-- Bytes stored one after the other from `buf[i]` on: `memcpy`, or a run of `*p++ = b`.
unfoldable pub store_bytes : List ℕ → ℕ → List ℕ → Option (List ℕ)
store_bytes buf i [] = some buf
store_bytes buf i (b ∷ bs) = store buf i b >>= λ buf'. store_bytes buf' (suc i) bs

-- `memcmp(a, b, n) == 0` for two arrays of n bytes.
abbrev pub bytes_eq : List ℕ → List ℕ → Bool
bytes_eq [] [] = true
bytes_eq [] (y ∷ ys) = false
bytes_eq (x ∷ xs) [] = false
bytes_eq (x ∷ xs) (y ∷ ys) = (x == y) && bytes_eq xs ys

-- `n` bytes read from `buf[i]` on.
unfoldable pub load_bytes : List ℕ → ℕ → ℕ → Option (List ℕ)
load_bytes [] i zero = some []
load_bytes [] i (suc n) = none
load_bytes (x ∷ xs) zero zero = some []
load_bytes (x ∷ xs) zero (suc n) = load_bytes xs zero n >>= λ bs. some (x ∷ bs)
load_bytes (x ∷ xs) (suc i) n = load_bytes xs i n

-- lwIP's documented `pbuf_copy_partial(p, buf, n, 0)`: the first bytes of the packet, as many as
-- there are and as `n` allows, replace the first bytes of the buffer; the rest of it stays.
abbrev pub copy_partial : List ℕ → ℕ → List ℕ → List ℕ
copy_partial packet n buf = overwrite buf 0 (take n packet)

pub bytes_eq_iff : (xs ys : List ℕ) → (bytes_eq xs ys ≡ true) ↔ (xs ≡ ys)
bytes_eq_iff [] [] = ground arith
bytes_eq_iff [] (y ∷ ys) = ground arith
bytes_eq_iff (x ∷ xs) [] = ground arith
bytes_eq_iff (x ∷ xs) (y ∷ ys) = ground (arith, bytes_eq_iff xs ys)

pub store_lem : (buf : List ℕ) (i v : ℕ) → i < length buf → store buf i v ≡ some (set buf i v)
unfolding store
store_lem buf i v h = rw (lt→ltb _ _ h)

pub store_out : (buf : List ℕ) (i v : ℕ) → length buf ≤ i → store buf i v ≡ none
unfolding store
store_out buf i v h = ground arith

pub overwrite-nil : (buf : List ℕ) (i : ℕ) → overwrite buf i [] ≡ buf
overwrite-nil [] i = refl
overwrite-nil (x ∷ xs) zero = refl
overwrite-nil (x ∷ xs) (suc i) = ap (◌∷◌ x) (overwrite-nil xs i)

overwrite-set :
    (buf : List ℕ) (i b : ℕ) (bs : List ℕ)
    → overwrite (set buf i b) (suc i) bs ≡ overwrite buf i (b ∷ bs)
overwrite-set [] i b bs = refl
overwrite-set (x ∷ xs) zero b bs = refl
overwrite-set (x ∷ xs) (suc i) b bs = ap (◌∷◌ x) (overwrite-set xs i b bs)

-- Stores that stay inside the array never fault, and amount to one overwrite.
pub store_bytes-eq-overwrite :
    (buf : List ℕ) (i : ℕ) (bs : List ℕ)
    → i + length bs ≤ length buf
    → store_bytes buf i bs ≡ some (overwrite buf i bs)
unfolding store_bytes
store_bytes-eq-overwrite buf i [] h = ap some (sym (overwrite-nil buf i))
store_bytes-eq-overwrite buf i (b ∷ bs) h =
    rw (store_lem buf i b (omega arith), ◌>>=◌)
      (store_bytes-eq-overwrite (set buf i b) (suc i) bs (omega (arith, length-set buf i b))
        ∙ ap some (overwrite-set buf i b bs))

pub overwrite_one : (buf : List ℕ) (i b : ℕ) → set buf i b ≡ overwrite buf i (b ∷ [])
overwrite_one buf i b = sym (overwrite-nil (set buf i b) (suc i)) ∙ overwrite-set buf i b []

-- Two overwrites, the second where the first ended, are one.
pub overwrite-overwrite :
    (buf : List ℕ) (i j : ℕ) (xs ys : List ℕ)
    → j ≡ i + length xs
    → overwrite (overwrite buf i xs) j ys ≡ overwrite buf i (xs ++ ys)
overwrite-overwrite [] i j xs ys h = refl
overwrite-overwrite (b ∷ bs) zero zero [] ys h = refl
overwrite-overwrite (b ∷ bs) zero (suc j) [] ys h = absurd (omega arith)
overwrite-overwrite (b ∷ bs) zero zero (x ∷ xs) ys h = absurd (omega arith)
overwrite-overwrite (b ∷ bs) zero (suc j) (x ∷ xs) ys h =
    ap (◌∷◌ x) (overwrite-overwrite bs zero j xs ys (omega arith))
overwrite-overwrite (b ∷ bs) (suc i) zero xs ys h = absurd (omega arith)
overwrite-overwrite (b ∷ bs) (suc i) (suc j) xs ys h =
    ap (◌∷◌ b) (overwrite-overwrite bs i j xs ys (omega arith))

-- Reads inside the array never fault.
pub load_bytes-eq-take :
    (buf : List ℕ) (i n : ℕ) → i + n ≤ length buf → load_bytes buf i n ≡ some (take n (drop i buf))
unfolding load_bytes
load_bytes-eq-take [] zero zero h = refl
load_bytes-eq-take [] (suc i) zero h = refl
load_bytes-eq-take [] i (suc n) h = absurd (omega arith)
load_bytes-eq-take (x ∷ xs) zero zero h = refl
load_bytes-eq-take (x ∷ xs) zero (suc n) h = rw (load_bytes-eq-take xs zero n (omega arith), ◌>>=◌)
load_bytes-eq-take (x ∷ xs) (suc i) n h = load_bytes-eq-take xs i n (omega arith)

-- A read of what was just written.
pub load_bytes-overwrite :
    (buf : List ℕ) (i : ℕ) (new : List ℕ)
    → i + length new ≤ length buf
    → load_bytes (overwrite buf i new) i (length new) ≡ some new
unfolding load_bytes
load_bytes-overwrite [] zero [] h = refl
load_bytes-overwrite [] (suc i) [] h = refl
load_bytes-overwrite [] i (y ∷ ys) h = absurd (omega arith)
load_bytes-overwrite (x ∷ xs) zero [] h = refl
load_bytes-overwrite (x ∷ xs) zero (y ∷ ys) h =
    rw (load_bytes-overwrite xs zero ys (omega arith), ◌>>=◌)
load_bytes-overwrite (x ∷ xs) (suc i) new h = load_bytes-overwrite xs i new (omega arith)

-- An overwrite leaves the bytes before it and behind it alone.
pub get_elem?-overwrite_before :
    (buf : List ℕ) (i j : ℕ) (new : List ℕ)
    → j < i
    → get_elem? (overwrite buf i new) j ≡ get_elem? buf j
get_elem?-overwrite_before [] i j new h = refl
get_elem?-overwrite_before (x ∷ xs) zero j new h = absurd (omega arith)
get_elem?-overwrite_before (x ∷ xs) (suc i) zero new h = refl
get_elem?-overwrite_before (x ∷ xs) (suc i) (suc j) new h =
    get_elem?-overwrite_before xs i j new (omega arith)

pub get_elem?-overwrite_after :
    (buf : List ℕ) (i j : ℕ) (new : List ℕ)
    → i + length new ≤ j
    → get_elem? (overwrite buf i new) j ≡ get_elem? buf j
get_elem?-overwrite_after [] i j new h = refl
get_elem?-overwrite_after (x ∷ xs) zero j [] h = refl
get_elem?-overwrite_after (x ∷ xs) zero zero (y ∷ ys) h = absurd (omega arith)
get_elem?-overwrite_after (x ∷ xs) zero (suc j) (y ∷ ys) h =
    get_elem?-overwrite_after xs zero j ys (omega arith)
get_elem?-overwrite_after (x ∷ xs) (suc i) zero new h = absurd (omega arith)
get_elem?-overwrite_after (x ∷ xs) (suc i) (suc j) new h =
    get_elem?-overwrite_after xs i j new (omega arith)

-- What a store that did not fault stored.
pub store-eq-some : (buf : List ℕ) (i v : ℕ) {m : List ℕ} → store buf i v ≡ some m → m ≡ set buf i v
unfolding store
store-eq-some buf i v e = ground arith

pub store_bytes-eq-some :
    (buf : List ℕ) (i : ℕ) (bs : List ℕ) {m : List ℕ}
    → store_bytes buf i bs ≡ some m
    → m ≡ overwrite buf i bs
unfolding store_bytes
store_bytes-eq-some buf i [] e = ground (arith, overwrite-nil buf i)
store_bytes-eq-some buf i (b ∷ bs) {m} e = elim (Option-cases (store buf i b)) [
  | inl out ↦ let bad : none ≡ some m = rw (out, store_bytes, ◌>>=◌) at e in cc
  | inr (m', stored) ↦
      let rest : store_bytes m' (suc i) bs ≡ some m = rw (stored, store_bytes, ◌>>=◌) at e in
      store_bytes-eq-some m' (suc i) bs rest
      ∙ ap (λ (x : List ℕ). overwrite x (suc i) bs) (store-eq-some buf i b stored)
      ∙ overwrite-set buf i b bs
]

pub load_bytes-overwrite_after :
    (buf : List ℕ) (i j n : ℕ) (new : List ℕ)
    → i + length new ≤ j
    → load_bytes (overwrite buf i new) j n ≡ load_bytes buf j n
unfolding load_bytes
load_bytes-overwrite_after [] i j n new h = refl
load_bytes-overwrite_after (x ∷ xs) zero j n [] h = refl
load_bytes-overwrite_after (x ∷ xs) zero zero n (y ∷ ys) h = absurd (omega arith)
load_bytes-overwrite_after (x ∷ xs) zero (suc j) n (y ∷ ys) h =
    load_bytes-overwrite_after xs zero j n ys (omega arith)
load_bytes-overwrite_after (x ∷ xs) (suc i) zero n new h = absurd (omega arith)
load_bytes-overwrite_after (x ∷ xs) (suc i) (suc j) n new h =
    load_bytes-overwrite_after xs i j n new (omega arith)

pub drop-overwrite_after :
    (buf : List ℕ) (i j : ℕ) (new : List ℕ)
    → i + length new ≤ j
    → drop j (overwrite buf i new) ≡ drop j buf
drop-overwrite_after [] i j new h = refl
drop-overwrite_after (x ∷ xs) zero j [] h = refl
drop-overwrite_after (x ∷ xs) zero zero (y ∷ ys) h = absurd (omega arith)
drop-overwrite_after (x ∷ xs) zero (suc j) (y ∷ ys) h =
    drop-overwrite_after xs zero j ys (omega arith)
drop-overwrite_after (x ∷ xs) (suc i) zero new h = absurd (omega arith)
drop-overwrite_after (x ∷ xs) (suc i) (suc j) new h = drop-overwrite_after xs i j new (omega arith)

pub bytes_eq_refl : (xs : List ℕ) → bytes_eq xs xs ≡ true
bytes_eq_refl xs = (bytes_eq_iff xs xs).1 refl

pub bytes_eq_ne : (xs ys : List ℕ) → xs ≢ ys → bytes_eq xs ys ≡ false
bytes_eq_ne xs ys ne = ground (arith, bytes_eq_iff xs ys)
