-- ===== src/Http/Request/Closed.antt =====
-- http_server/http_server.c and ap_website/picow_access_point.c: a request in an array that ends in a zero.
use native.Mathlib.Decide.{ℕ_discrete}
use pico_common.Common.{
  ℕ, zero, suc, ◌+◌, ◌≤◌, ◌≡◌, refl, ◌∙◌, inl, inr, List, [], ◌∷◌, Option, none, some, arith, ◌==◌,
  Bool-cases, length, get_elem?, set, take, drop, length-set, length-overwrite, length-take,
  length-drop, get_elem?-set_self, get_elem?-set_ne, get_elem?-drop, get_elem?-overwrite_after,
  copy_partial,
}
use pico_common.Http.Text.{strchr, c_string}
use pico_common.Http.Text.Closed.{HasZero, HasZero-of-get_elem?, strchr-total}
use pico_common.Http.Request.{parse_request, split_at, cut_at}

-- An array of `n + 1` bytes, the last one a zero.
pub record EndsZero (n : ℕ) (xs : List ℕ) : Type 0 where
  pub size : length xs ≡ suc n
  pub last : get_elem? xs n ≡ some 0

pub EndsZero-HasZero : {n : ℕ} (xs : List ℕ) → EndsZero n xs → HasZero xs
EndsZero-HasZero {n} xs e = HasZero-of-get_elem? xs n e.last

pub set-EndsZero : {n : ℕ} (xs : List ℕ) (i : ℕ) → EndsZero n xs → EndsZero n (set xs i 0)
set-EndsZero {n} xs i e = record { size = length-set xs i 0 ∙ e.size; last = last }
  where
    last : get_elem? (set xs i 0) n ≡ some 0
    last = elim (ℕ_discrete i n) [
      | yes same ↦ rw same (get_elem?-set_self xs n 0 (omega (arith, e.size)))
      | no other ↦ get_elem?-set_ne xs i n 0 other ∙ e.last
    ]

pub copy_partial-EndsZero :
    {n : ℕ} (p buf : List ℕ) (m : ℕ) → m ≤ n → EndsZero n buf → EndsZero n (copy_partial p m buf)
copy_partial-EndsZero {n} p buf m h e = record {
  size = length-overwrite buf 0 (take m p) ∙ e.size;
  last = get_elem?-overwrite_after buf 0 n (take m p) (omega (arith, length-take m p)) ∙ e.last;
}

split_at-total :
    {n : ℕ} (request : List ℕ)
    → EndsZero n request
    → (r : List ℕ) × (ps : Option (List ℕ)) × (split_at request (strchr request b'?')
        ≡ some (r, ps))
      × EndsZero n r
unfolding split_at cut_at
split_at-total {n} request e =
    elim (strchr-total request b'?' (EndsZero-HasZero request e) (ground arith)) [
      | inl plain ↦ (request, none, rw plain refl, e)
      | inr (i, found) ↦
          elim (strchr-total request b' ' (EndsZero-HasZero request e) (ground arith)) [
            | inl plain ↦ (
              set request i 0,
              some (drop (suc i) (set request i 0)),
              rw (found, plain) refl,
              set-EndsZero request i e,
            )
            | inr (j, space) ↦ (
              set (set request i 0) j 0,
              some (drop (suc i) (set (set request i 0) j 0)),
              rw (found, space) refl,
              set-EndsZero (set request i 0) j (set-EndsZero request i e),
            )
          ]
    ]

-- Behind "GET " in an array of `n + 5` bytes, the last one a zero.
pub parse_request-EndsZero :
    (n : ℕ) (headers : List ℕ)
    → EndsZero (4 + n) headers
    → (r : List ℕ) × (ps : Option (List ℕ)) × (parse_request headers ≡ some (r, ps)) × EndsZero n r
unfolding parse_request
parse_request-EndsZero n headers e = split_at-total {n = n} (drop 4 headers) (record {
  size = omega (arith, length-drop 4 headers, e.size);
  last = get_elem?-drop 4 n (4 + n) headers refl ∙ e.last;
})

-- A C string in an array of `n + 1` bytes has `n` bytes at most.
pub c_string-short :
    (n : ℕ) (xs : List ℕ) → EndsZero n xs → (t : List ℕ) × (c_string xs ≡ some t) × (length t ≤ n)
unfolding c_string
c_string-short n [] e = absurd (omega (arith, e.size))
c_string-short zero (b ∷ bs) e = ([], ground (arith, e.last), omega arith)
c_string-short (suc n) (b ∷ bs) e =
    let (t, is, short) =
      c_string-short n bs (record { size = omega (arith, e.size); last = e.last }) in
    elim (Bool-cases (b == 0)) [
      | inl end ↦ ([], rw end refl, omega arith)
      | inr more ↦ (b ∷ t, rw (more, is) refl, omega arith)
    ]
