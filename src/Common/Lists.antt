-- ===== src/Common/Lists.antt =====
-- Byte arrays as lists: measured and indexed by native numbers, under the library's names.
use Prim.Native.Nat.{ℕ, zero, suc, ◌+◌, ◌-◌, ◌≤◌, ◌<◌, min}
use mathlib.Core.Path.{◌≡◌, refl, ap}
use mathlib.Core.Logic.{◌≢◌}
use mathlib.Core.List.{List, [], ◌∷◌, ◌++◌}
use mathlib.Core.Option.{Option, none, some}
use native.Mathlib.Omega.{arith}

module _ {ℓ} {A : Type ℓ} where
  abbrev pub length : List A → ℕ
  length [] = 0
  length (x ∷ xs) = suc (length xs)

  abbrev pub get_elem? : List A → ℕ → Option A
  get_elem? [] i = none
  get_elem? (x ∷ xs) zero = some x
  get_elem? (x ∷ xs) (suc i) = get_elem? xs i

  -- A write out of bounds changes nothing; a caller that can be out of bounds tests first.
  abbrev pub set : List A → ℕ → A → List A
  set [] i v = []
  set (x ∷ xs) zero v = v ∷ xs
  set (x ∷ xs) (suc i) v = x ∷ set xs i v

  abbrev pub take : ℕ → List A → List A
  take zero xs = []
  take (suc n) [] = []
  take (suc n) (x ∷ xs) = x ∷ take n xs

  abbrev pub drop : ℕ → List A → List A
  drop zero xs = xs
  drop (suc n) [] = []
  drop (suc n) (x ∷ xs) = drop n xs

  abbrev pub replicate : ℕ → A → List A
  replicate zero a = []
  replicate (suc n) a = a ∷ replicate n a

  -- The list with `new` written over it from index `i`, as far as both reach.
  abbrev pub overwrite : List A → ℕ → List A → List A
  overwrite [] i new = []
  overwrite (x ∷ xs) zero [] = x ∷ xs
  overwrite (x ∷ xs) zero (y ∷ ys) = y ∷ overwrite xs zero ys
  overwrite (x ∷ xs) (suc i) new = x ∷ overwrite xs i new

module _ {ℓ} {A : Type ℓ} where
  pub length-append : (xs ys : List A) → length (xs ++ ys) ≡ length xs + length ys
  length-append [] ys = omega arith
  length-append (x ∷ xs) ys = omega (arith, length-append xs ys)

  pub length-set : (xs : List A) (i : ℕ) (v : A) → length (set xs i v) ≡ length xs
  length-set [] i v = refl
  length-set (x ∷ xs) zero v = refl
  length-set (x ∷ xs) (suc i) v = ap suc (length-set xs i v)

  pub length-take : (n : ℕ) (xs : List A) → length (take n xs) ≡ min n (length xs)
  length-take zero xs = omega arith
  length-take (suc n) [] = omega arith
  length-take (suc n) (x ∷ xs) = omega (arith, length-take n xs)

  pub length-drop : (n : ℕ) (xs : List A) → length (drop n xs) ≡ length xs - n
  length-drop zero xs = omega arith
  length-drop (suc n) [] = omega arith
  length-drop (suc n) (x ∷ xs) = omega (arith, length-drop n xs)

  pub length-overwrite :
      (xs : List A) (i : ℕ) (new : List A) → length (overwrite xs i new) ≡ length xs
  length-overwrite [] i new = refl
  length-overwrite (x ∷ xs) zero [] = refl
  length-overwrite (x ∷ xs) zero (y ∷ ys) = ap suc (length-overwrite xs zero ys)
  length-overwrite (x ∷ xs) (suc i) new = ap suc (length-overwrite xs i new)

  pub get_elem?-set_self :
      (xs : List A) (i : ℕ) (v : A) → i < length xs → get_elem? (set xs i v) i ≡ some v
  get_elem?-set_self [] i v h = absurd (omega arith)
  get_elem?-set_self (x ∷ xs) zero v h = refl
  get_elem?-set_self (x ∷ xs) (suc i) v h = get_elem?-set_self xs i v (omega arith)

  pub get_elem?-set_ne :
      (xs : List A) (i j : ℕ) (v : A) → i ≢ j → get_elem? (set xs i v) j ≡ get_elem? xs j
  get_elem?-set_ne [] i j v h = refl
  get_elem?-set_ne (x ∷ xs) zero zero v h = absurd (h refl)
  get_elem?-set_ne (x ∷ xs) zero (suc j) v h = refl
  get_elem?-set_ne (x ∷ xs) (suc i) zero v h = refl
  get_elem?-set_ne (x ∷ xs) (suc i) (suc j) v h = get_elem?-set_ne xs i j v (λ e. h (ap suc e))

  -- Every index below the length holds an element, and no other.
  pub get_elem?-of-lt : (xs : List A) (i : ℕ) → i < length xs → (a : A) × (get_elem? xs i ≡ some a)
  get_elem?-of-lt [] i h = absurd (omega arith)
  get_elem?-of-lt (x ∷ xs) zero h = (x, refl)
  get_elem?-of-lt (x ∷ xs) (suc i) h = get_elem?-of-lt xs i (omega arith)

  pub get_elem?_bound : (xs : List A) (i : ℕ) (a : A) → get_elem? xs i ≡ some a → i < length xs
  get_elem?_bound [] i a e = cc
  get_elem?_bound (x ∷ xs) zero a e = omega arith
  get_elem?_bound (x ∷ xs) (suc i) a e = let below = get_elem?_bound xs i a e in omega arith

  pub get_elem?-of-le : (xs : List A) (i : ℕ) → length xs ≤ i → get_elem? xs i ≡ none
  get_elem?-of-le [] i h = refl
  get_elem?-of-le (x ∷ xs) zero h = absurd (omega arith)
  get_elem?-of-le (x ∷ xs) (suc i) h = get_elem?-of-le xs i (omega arith)

  pub get_elem?-append_left :
      (xs ys : List A) (i : ℕ) → i < length xs → get_elem? (xs ++ ys) i ≡ get_elem? xs i
  get_elem?-append_left [] ys i h = absurd (omega arith)
  get_elem?-append_left (x ∷ xs) ys zero h = refl
  get_elem?-append_left (x ∷ xs) ys (suc i) h = get_elem?-append_left xs ys i (omega arith)

  pub get_elem?-append_right :
      (xs ys : List A) (i j : ℕ) → j ≡ length xs + i → get_elem? (xs ++ ys) j ≡ get_elem? ys i
  get_elem?-append_right [] ys i j e = ap (get_elem? ys) (omega arith)
  get_elem?-append_right (x ∷ xs) ys i zero e = absurd (omega arith)
  get_elem?-append_right (x ∷ xs) ys i (suc j) e = get_elem?-append_right xs ys i j (omega arith)

  pub take-length : (n : ℕ) (xs : List A) → length xs ≤ n → take n xs ≡ xs
  take-length zero [] h = refl
  take-length zero (x ∷ xs) h = absurd (omega arith)
  take-length (suc n) [] h = refl
  take-length (suc n) (x ∷ xs) h = ap (◌∷◌ x) (take-length n xs (omega arith))

  pub take-append : (n : ℕ) (xs ys : List A) → length xs ≡ n → take n (xs ++ ys) ≡ xs
  take-append zero [] ys h = refl
  take-append zero (x ∷ xs) ys h = absurd (omega arith)
  take-append (suc n) [] ys h = absurd (omega arith)
  take-append (suc n) (x ∷ xs) ys h = ap (◌∷◌ x) (take-append n xs ys (omega arith))

  pub drop-append : (n : ℕ) (xs ys : List A) → length xs ≡ n → drop n (xs ++ ys) ≡ ys
  drop-append zero [] ys h = refl
  drop-append zero (x ∷ xs) ys h = absurd (omega arith)
  drop-append (suc n) [] ys h = absurd (omega arith)
  drop-append (suc n) (x ∷ xs) ys h = drop-append n xs ys (omega arith)

  pub get_elem?-drop :
      (n i j : ℕ) (xs : List A) → j ≡ n + i → get_elem? (drop n xs) i ≡ get_elem? xs j
  get_elem?-drop zero i j xs e = ap (get_elem? xs) (omega arith)
  get_elem?-drop (suc n) i j [] e = refl
  get_elem?-drop (suc n) i zero (x ∷ xs) e = absurd (omega arith)
  get_elem?-drop (suc n) i (suc j) (x ∷ xs) e = get_elem?-drop n i j xs (omega arith)

  pub get_elem?-take : (n i : ℕ) (xs : List A) → i < n → get_elem? (take n xs) i ≡ get_elem? xs i
  get_elem?-take zero i xs h = absurd (omega arith)
  get_elem?-take (suc n) i [] h = refl
  get_elem?-take (suc n) zero (x ∷ xs) h = refl
  get_elem?-take (suc n) (suc i) (x ∷ xs) h = get_elem?-take n i xs (omega arith)

  -- Overwriting in the middle of a list that is given in three parts.
  pub overwrite-append :
      (xs old ys new : List A) (i : ℕ)
      → i ≡ length xs
      → length old ≡ length new
      → overwrite (xs ++ old ++ ys) i new ≡ xs ++ new ++ ys
  overwrite-append [] [] [] [] i e h = refl
  overwrite-append [] [] (y ∷ ys) [] zero e h = refl
  overwrite-append [] [] (y ∷ ys) [] (suc i) e h = absurd (omega arith)
  overwrite-append [] (o ∷ old) ys [] i e h = absurd (omega arith)
  overwrite-append [] [] ys (n ∷ new) i e h = absurd (omega arith)
  overwrite-append [] (o ∷ old) ys (n ∷ new) zero e h =
      ap (◌∷◌ n) (overwrite-append [] old ys new zero refl (omega arith))
  overwrite-append [] (o ∷ old) ys (n ∷ new) (suc i) e h = absurd (omega arith)
  overwrite-append (x ∷ xs) old ys new zero e h = absurd (omega arith)
  overwrite-append (x ∷ xs) old ys new (suc i) e h =
      ap (◌∷◌ x) (overwrite-append xs old ys new i (omega arith) h)

  pub overwrite-append_right :
      (xs ys new : List A) (i j : ℕ)
      → j ≡ length xs + i
      → overwrite (xs ++ ys) j new ≡ xs ++ overwrite ys i new
  overwrite-append_right [] ys new i j e = ap (λ k. overwrite ys k new) (omega arith)
  overwrite-append_right (x ∷ xs) ys new i zero e = absurd (omega arith)
  overwrite-append_right (x ∷ xs) ys new i (suc j) e =
      ap (◌∷◌ x) (overwrite-append_right xs ys new i j (omega arith))

  -- Written at the start, the new list stands before what is left of the old one.
  pub overwrite-zero :
      (xs new : List A) → length new ≤ length xs → overwrite xs 0 new ≡ new ++ drop (length new) xs
  overwrite-zero [] [] h = refl
  overwrite-zero [] (y ∷ ys) h = absurd (omega arith)
  overwrite-zero (x ∷ xs) [] h = refl
  overwrite-zero (x ∷ xs) (y ∷ ys) h = ap (◌∷◌ y) (overwrite-zero xs ys (omega arith))
