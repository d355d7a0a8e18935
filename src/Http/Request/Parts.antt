-- ===== src/Http/Request/Parts.antt =====
-- http_server/http_server.c: the parts that a request is cut into.
use pico_common.Common.{
  ℕ, zero, suc, ◌≡◌, refl, sym, ◌∙◌, ap, List, [], ◌∷◌, ◌++◌, none, some, arith, length, ◌>>=◌, set,
  drop, length-append,
}
use pico_common.Http.Text.{codes, at, strchr, c_string}
use pico_common.Http.Text.Strings.{
  Without, strchr-found, strchr-missing, strchr-over_read, c_string-zero,
}
use pico_common.Http.Request.{cut_at, split_at, parse_request}

set-middle :
    (xs : List ℕ) (y v : ℕ) (ys : List ℕ) (i : ℕ)
    → i ≡ length xs
    → set (xs ++ y ∷ ys) i v ≡ xs ++ v ∷ ys
set-middle [] y v ys zero h = refl
set-middle [] y v ys (suc i) h = absurd (omega arith)
set-middle (x ∷ xs) y v ys zero h = absurd (omega arith)
set-middle (x ∷ xs) y v ys (suc i) h = ap (◌∷◌ x) (set-middle xs y v ys i (omega arith))

drop-middle : (xs : List ℕ) (y : ℕ) (ys : List ℕ) → drop (suc (length xs)) (xs ++ y ∷ ys) ≡ ys
drop-middle [] y ys = refl
drop-middle (x ∷ xs) y ys = drop-middle xs y ys

append_assoc : (xs ys zs : List ℕ) → (xs ++ ys) ++ zs ≡ xs ++ (ys ++ zs)
append_assoc [] ys zs = refl
append_assoc (x ∷ xs) ys zs = ap (◌∷◌ x) (append_assoc xs ys zs)

pub Without-append :
    (ch : ℕ) (xs ys : List ℕ) → Without ch xs → Without ch ys → Without ch (xs ++ ys)
Without-append ch [] ys wx wy = wy
Without-append ch (x ∷ xs) ys wx wy = (wx.0, Without-append ch xs ys wx.1 wy)

-- "path?params rest": with a zero for the question mark, and one for the space behind the parameters.
split_query :
    (path params rest : List ℕ)
    → Without b'?' path
    → Without 0 path
    → Without b' ' path
    → Without b' ' params
    → Without 0 params
    → split_at (path ++ b'?' ∷ (params ++ b' ' ∷ rest)) (at (length path))
      ≡ some (path ++ 0 ∷ (params ++ 0 ∷ rest), some (params ++ 0 ∷ rest))
unfolding split_at cut_at
split_query path params rest q z sp sp' z' =
    rw (found, set-middle path b'?' 0 (params ++ b' ' ∷ rest) (length path) refl)
      (rw (cut, ◌>>=◌, drop-middle path 0 (params ++ 0 ∷ rest)) refl)
  where
    head : List ℕ
    head = path ++ b'?' ∷ params

    found : strchr (path ++ b'?' ∷ (params ++ b' ' ∷ rest)) b' ' ≡ at (length head)
    found =
        ap (λ l. strchr l b' ') (sym (append_assoc path (b'?' ∷ params) (b' ' ∷ rest)))
        ∙ strchr-found head b' ' rest
            (Without-append b' ' path (b'?' ∷ params) sp (ground arith, sp'))
            (Without-append 0 path (b'?' ∷ params) z (ground arith, z'))

    cut :
        set (path ++ 0 ∷ (params ++ b' ' ∷ rest)) (length head) 0 ≡ path ++ 0 ∷ (params ++ 0 ∷ rest)
    cut =
        ap (λ l. set l (length head) 0) (sym (append_assoc path (0 ∷ params) (b' ' ∷ rest)))
        ∙ (set-middle (path ++ 0 ∷ params) b' ' 0 rest (length head)
              (omega (arith, length-append path (b'?' ∷ params), length-append path (0 ∷ params)))
            ∙ append_assoc path (0 ∷ params) (0 ∷ rest))

-- "GET path?params rest", where the path has no question mark, space or zero and the parameters
-- have no space or zero: the request is then the path and the parameters are the parameters, each
-- as a C string.
pub parse_request-query :
    (path params rest : List ℕ)
    → Without b'?' path
    → Without 0 path
    → Without b' ' path
    → Without b' ' params
    → Without 0 params
    → (request : List ℕ) × (given : List ℕ) × (parse_request
          (codes "GET " ++ (path ++ b'?' ∷ (params ++ b' ' ∷ rest)))
        ≡ some (request, some given))
      × (c_string request ≡ some path)
      × (c_string given ≡ some params)
unfolding parse_request
parse_request-query path params rest q z sp sp' z' = (
  path ++ 0 ∷ (params ++ 0 ∷ rest),
  params ++ 0 ∷ rest,
  rw (strchr-found path b'?' (params ++ b' ' ∷ rest) q z)
      (split_query path params rest q z sp sp' z'),
  c_string-zero path (params ++ 0 ∷ rest) z,
  c_string-zero params rest z',
)

-- "GET line", where no question mark stands before the closing zero: the line is passed on whole, and
-- without parameters.
pub parse_request-plain :
    (line rest : List ℕ)
    → Without b'?' line
    → Without 0 line
    → (parse_request (codes "GET " ++ (line ++ 0 ∷ rest)) ≡ some (line ++ 0 ∷ rest, none))
      × (c_string (line ++ 0 ∷ rest) ≡ some line)
unfolding parse_request split_at
parse_request-plain line rest q z =
    (rw (strchr-missing line b'?' rest q z (ground arith)) refl, c_string-zero line rest z)

-- A request that fills the array, without a question mark or a zero, is searched behind its end.
pub parse_request-over_read :
    (line : List ℕ)
    → Without b'?' line
    → Without 0 line
    → parse_request (codes "GET " ++ line) ≡ none
unfolding parse_request split_at
parse_request-over_read line q z = rw (strchr-over_read line b'?' q z) refl
