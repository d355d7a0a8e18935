-- ===== src/Http/Request/Safety.antt =====
-- http_server/http_server.c: a request in an array that ends in a zero, and pages that only write.
use pico_common.Common.{
  ℕ, ◌+◌, ◌-◌, ◌≤◌, ◌<◌, ◌≡◌, refl, ◌∙◌, inl, inr, List, [], ◌∷◌, Option, none, some, arith, ◌==◌,
  bytes_eq, Bool-cases, lt→ltb, ◌>>=◌, length, take, replicate, overwrite, length-take,
  length-overwrite, get_elem?-overwrite_after, copy_partial,
}
use pico_common.Http.Text.{
  codes, c_string, find_first_index, not_found_body, http_response_not_found_header,
}
use pico_common.Http.Text.Closed.{HasZero, find_first_index-total, strncmp_eq-total}
use pico_common.Http.Url.{
  UrlItem, is_prefix, until_space, first_prefix, first_equal, find_handeler, find_exact, find_page,
  generator_of, or_else,
}
use pico_common.Http.Response.{small_request_copy, http_send_404, ok_or_abrt}
use pico_common.Http.Response.Written.{after_copy}
use pico_common.Http.Request.{
  Generator, try_handler, answer_page, http_get_generate, handle_tcp_data,
}
use pico_common.Http.Request.Closed.{
  EndsZero, EndsZero-HasZero, copy_partial-EndsZero, parse_request-EndsZero, c_string-short,
}
use pico_common.Tcp.Session.{Err, ok, Session, Tcp, tcp_server_send_data}
use pico_common.Tcp.Session.Safety.{IsOpen, Yields, Follows, KeepsOpen, tcp_server_send_data-IsOpen}

-- A page that only writes: its generator, if it has one, leaves an open connection open.
abbrev pub GoodPage : Option Generator → Type 0
GoodPage none = Unit {0}
GoodPage (some g) =
    (params : Option (List ℕ)) (s : Session) → IsOpen s → Yields (Follows s) (g params s)

abbrev pub AllGood : List (UrlItem Generator) → Type 0
AllGood [] = Unit {0}
AllGood (x ∷ xs) = GoodPage x.html_generator_func × AllGood xs

-- Two writes, one behind the other, with one status of both.
pub both-Follows :
    (env : Tcp) (s : Session) (first second : List ℕ) (join : Err → Err → Err)
    → IsOpen s
    → Yields (Follows s) (
        tcp_server_send_data env s first >>= λ (s1, e1).
        tcp_server_send_data env s1 second >>= λ (s2, e2). some (s2, join e1 e2))
both-Follows env s first second join o =
    let (s1, e1, sent, (o1, same)) = tcp_server_send_data-IsOpen env s first o in
    let (s2, e2, sent', (o2, same')) = tcp_server_send_data-IsOpen env s1 second o1 in
    (s2, join e1 e2, rw (sent, ◌>>=◌, sent') refl, (o2, same' ∙ same))

blank-EndsZero : EndsZero 127 (replicate 128 0)
blank-EndsZero = record { size = refl; last = refl }

small_request_copy-total :
    (request : List ℕ)
    → HasZero request
    → (copy : List ℕ) × (small_request_copy request (find_first_index request b' ' 128) ≡ some copy)
      × EndsZero 127 copy
unfolding small_request_copy
small_request_copy-total request z = elim (find_first_index-total request b' ' 128 z) [
  | inl none_there ↦ (replicate 128 0, rw none_there refl, blank-EndsZero)
  | inr (j, there, short) ↦ (
    overwrite (replicate 128 0) 0 (take j request),
    rw there refl,
    record {
      size = length-overwrite (replicate 128 0) 0 (take j request);
      last =
          get_elem?-overwrite_after (replicate 128 0) 0 127 (take j request)
            (omega (arith, short, length-take j request));
    },
  )
]

http_send_404-Follows :
    (env : Tcp) (s : Session) (request : List ℕ)
    → HasZero request
    → IsOpen s
    → Yields (Follows s) (http_send_404 env s request)
http_send_404-Follows env s request z o =
    let (copy, copied, ends) = small_request_copy-total request z in
    let (url, is_url, short) = c_string-short 127 copy ends in
    rw (after_copy env s request copy url copied is_url (omega (arith, short))) (
      both-Follows env s (http_response_not_found_header (length (not_found_body url)))
        (not_found_body url) ok_or_abrt o)

first_prefix-GoodPage :
    (key : List ℕ) (pages : List (UrlItem Generator))
    → AllGood pages
    → GoodPage (generator_of (first_prefix key pages))
unfolding first_prefix
first_prefix-GoodPage key [] good = tt
first_prefix-GoodPage key (x ∷ xs) good = elim (Bool-cases (is_prefix x.url key)) [
  | inl begins ↦ rw begins good.0
  | inr other ↦ rw other (first_prefix-GoodPage key xs good.1)
]

first_equal-GoodPage :
    (key : List ℕ) (pages : List (UrlItem Generator))
    → AllGood pages
    → GoodPage (generator_of (first_equal key pages))
unfolding first_equal
first_equal-GoodPage key [] good = tt
first_equal-GoodPage key (x ∷ xs) good = elim (Bool-cases (bytes_eq x.url key)) [
  | inl same ↦ rw same good.0
  | inr other ↦ rw other (first_equal-GoodPage key xs good.1)
]

length-until_space : (key : List ℕ) → length (until_space key) ≤ length key
length-until_space [] = omega arith
length-until_space (b ∷ bs) = ground (arith, length-until_space bs)

find_page-total :
    (request key : List ℕ) (pages : List (UrlItem Generator))
    → c_string request ≡ some key
    → length key < 512
    → AllGood pages
    → (page : Option Generator) × (find_page request pages ≡ some page) × GoodPage page
unfolding find_page find_exact find_handeler
find_page-total request key pages is short good =
    rw
      (
        is,
        ◌>>=◌,
        lt→ltb (length (until_space key)) 512 (omega (arith, short, length-until_space key)),
      )
      (elim (Bool-cases (length key == 0)) [
        | inl empty ↦ rw (empty, ◌>>=◌) (second none tt)
        | inr some_key ↦
            rw (some_key, ◌>>=◌)
              (second (generator_of (first_equal (until_space key) pages))
                (first_equal-GoodPage (until_space key) pages good))
      ])
  where
    begun : GoodPage (generator_of (first_prefix key pages))
    begun = first_prefix-GoodPage key pages good

    second :
        (g : Option Generator)
        → GoodPage g
        → (page : Option Generator) × (or_else g (some (first_prefix key pages)) ≡ some page)
          × GoodPage page
    second none none_good = (generator_of (first_prefix key pages), refl, begun)
    second (some g) good_g = (some g, refl, good_g)

http_get_generate-Follows :
    (env : Tcp) (pages : List (UrlItem Generator)) (request key : List ℕ) (params : Option (List ℕ))
    (s : Session)
    → HasZero request
    → c_string request ≡ some key
    → length key < 512
    → AllGood pages
    → IsOpen s
    → Yields (Follows s) (http_get_generate env pages none request params s)
unfolding http_get_generate answer_page try_handler
http_get_generate-Follows env pages request key params s z is short good o =
    let (page, found, good_page) = find_page-total request key pages is short good in
    rw (found, ◌>>=◌) (answer page good_page)
  where
    answer :
        (page : Option Generator)
        → GoodPage page
        → Yields (Follows s) (answer_page env none request params s page)
    answer none none_good = http_send_404-Follows env s request z o
    answer (some g) good_g = good_g params s o

-- In an array of at most 516 bytes whose last byte is a zero, every packet is handled without an access outside
-- the array, where the pages only write: an open connection stays open, whatever is asked for.
pub handle_tcp_data-KeepsOpen :
    (env : Tcp) (pages : List (UrlItem Generator)) (n : ℕ) (buffer : List ℕ)
    → AllGood pages
    → EndsZero (4 + n) buffer
    → n < 512
    → KeepsOpen buffer (handle_tcp_data env pages none)
unfolding handle_tcp_data
handle_tcp_data-KeepsOpen env pages n buffer good ends short p len s o =
    let bytes = copy_partial p (length buffer - 1) buffer in
    let e : EndsZero (4 + n) bytes =
      copy_partial-EndsZero p buffer (length buffer - 1) (omega (arith, ends.size)) ends in
    let (b, compared) =
      strncmp_eq-total (codes "GET") bytes (EndsZero-HasZero bytes e) (ground arith) in
    let (request, params, parsed, cut) = parse_request-EndsZero n bytes e in
    let (key, is, small) = c_string-short n request cut in
    rw (compared, ◌>>=◌, parsed, ◌>>=◌)
      (elim (Bool-cases b) [
        | inl get ↦ rw get (
            http_get_generate-Follows env pages request key params s (EndsZero-HasZero request cut)
              is (omega arith) good o)
        | inr other ↦ rw other (s, ok, refl, (o, refl))
      ])
