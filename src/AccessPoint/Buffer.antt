-- ===== src/AccessPoint/Buffer.antt =====
-- ap_website/picow_access_point.c: the zero at the end of a connection's header buffer.
use native.Mathlib.Decide.{dec_lt}
use pico_common.Common.{
  ℕ, suc, ◌+◌, ◌-◌, ◌≡◌, ◌∙◌, List, [], ◌∷◌, ◌++◌, Option, some, arith, length, get_elem?, take,
  drop, overwrite, length-overwrite, length-take, length-append, get_elem?-append_left,
  get_elem?-append_right, get_elem?-overwrite_after, overwrite-zero,
}
use pico_common.Http.Text.Closed.{HasZero}
use pico_common.Http.Request.{parse_request}
use pico_common.Http.Request.Closed.{EndsZero, EndsZero-HasZero, parse_request-EndsZero}
use pico_common.AccessPoint.Request.{snprintf_into}

pub snprintf_into-EndsZero :
    {n : ℕ} (buf text : List ℕ) → EndsZero n buf → EndsZero n (snprintf_into buf (suc n) text)
unfolding snprintf_into
snprintf_into-EndsZero {n} buf text e = record {
  size = length-overwrite buf 0 new ∙ e.size;
  last = last;
}
  where
    cut : List ℕ
    cut = take (suc n - 1) text

    new : List ℕ
    new = cut ++ 0 ∷ []

    last : get_elem? (overwrite buf 0 new) n ≡ some 0
    last = elim (dec_lt (length cut) n) [
      | yes short ↦
          get_elem?-overwrite_after buf 0 n new (omega (arith, length-append cut (0 ∷ []))) ∙ e.last
      | no full ↦
          rw
            (overwrite-zero buf new
              (omega (arith, e.size, length-append cut (0 ∷ []), length-take (suc n - 1) text)))
            (get_elem?-append_left new (drop (length new) buf) n
                (omega (arith, length-append cut (0 ∷ [])))
              ∙ get_elem?-append_right cut (0 ∷ []) 0 n
                  (omega (arith, length-take (suc n - 1) text)))
    ]

-- A request in a buffer that ends in a zero is cut within the buffer, which still ends in a zero then.
pub parse_request-total :
    (n : ℕ) (headers : List ℕ)
    → EndsZero (4 + n) headers
    → (r : List ℕ) × (ps : Option (List ℕ)) × (parse_request headers ≡ some (r, ps))
      × HasZero r
      × EndsZero (4 + n) (take 4 headers ++ r)
parse_request-total n headers e =
    let (r, ps, cut, e') = parse_request-EndsZero n headers e in
    (r, ps, cut, EndsZero-HasZero r e', whole r e')
  where
    whole : (r : List ℕ) → EndsZero n r → EndsZero (4 + n) (take 4 headers ++ r)
    whole r e' = record {
      size =
          omega (arith, length-append (take 4 headers) r, length-take 4 headers, e.size, e'.size);
      last =
          get_elem?-append_right (take 4 headers) r n (4 + n)
            (omega (arith, length-take 4 headers, e.size))
          ∙ e'.last;
    }
