-- ===== src/AccessPoint/Delivered/NotFound.antt =====
-- ap_website/picow_access_point.c: the not-found answer, and what comes after it.
use pico_common.Common.{
  ℕ, zero, suc, ◌-◌, ◌≤◌, ◌<◌, ◌≡◌, refl, ◌∙◌, ap, List, [], ◌∷◌, ◌++◌, arith, length, take,
  replicate, overwrite, overwrite-nil,
}
use pico_common.Http.Text.{not_found_body}
use pico_common.Tcp.Session.{Tcp}
use pico_common.AccessPoint.Connection.{max_data_size, Con, Session}
use pico_common.AccessPoint.Safety.{IsSound}

-- The body of a not-found answer, cut to the space of `sizeof(NOT_FOUND_BODY)` and filled up with zeros.
abbrev pub cut_body : List ℕ → List ℕ
cut_body url = take 212 (not_found_body url) ++ replicate (length url - 2) 0

take-replicate : (k n : ℕ) → k ≤ n → take k (replicate {A = ℕ} n 0) ≡ replicate k 0
take-replicate zero n h = refl
take-replicate (suc k) zero h = absurd (omega arith)
take-replicate (suc k) (suc n) h = ap (◌∷◌ 0) (take-replicate k n (omega arith))

cut_at :
    (text : List ℕ) (n m : ℕ)
    → n < length text
    → length text ≤ m
    → take (length text) (overwrite (replicate m 0) 0 (take n text ++ 0 ∷ []))
      ≡ take n text ++ replicate (length text - n) 0
cut_at [] n m long room = absurd (omega arith)
cut_at (x ∷ xs) n zero long room = absurd (omega arith)
cut_at (x ∷ xs) zero (suc m) long room =
    let e : suc (length xs) ≡ length (x ∷ xs) - 0 = omega arith in
    ap (λ l. 0 ∷ take (length xs) l) (overwrite-nil (replicate m 0) 0)
    ∙ (ap (◌∷◌ 0) (take-replicate (length xs) m (omega arith)) ∙ ap (λ k. replicate k 0) e)
cut_at (x ∷ xs) (suc n) (suc m) long room =
    let e : length xs - n ≡ suc (length xs) - suc n = omega arith in
    ap (◌∷◌ x) (cut_at xs n m (omega arith) (omega arith) ∙ ap (λ k. take n xs ++ replicate k 0) e)

-- The state of a connection whose result buffer was not used yet.
pub record IsFresh (con : Con) : Type 0 where
  pub sound : IsSound con
  pub cleared : con.result ≡ replicate max_data_size 0
  pub unused : con.result_len ≡ 0
