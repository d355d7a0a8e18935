-- ===== src/Http/Request.antt =====
-- http_server/http_server.c: from the bytes of a request to the page that answers it.
pub mod Parts
pub mod Pages
pub mod Closed
pub mod Safety
use pico_common.Common.{
  ℕ, suc, List, [], ◌∷◌, Bool, true, false, Option, none, some, if◌then◌else◌, ◌>>=◌, set, drop,
}
use pico_common.Http.Text.{codes, Search, at, missing, over_read, strchr, strncmp_eq}
use pico_common.Http.Url.{UrlItem, find_page}
use pico_common.Http.Response.{http_send_404}
use pico_common.Tcp.Session.{Err, ok, Session, Tcp, Step, Handler}

-- `url_generator_func_t`, with the code that it stores in `*write_error_code`.
abbrev pub Generator : Type 0
Generator = Option (List ℕ) → Session → Step

-- `ap_get_handeler_func_t`. The last component is `none` where it answers false.
abbrev pub GetHandler : Type 0
GetHandler = List ℕ → Option (List ℕ) → Session → Option (Session × Option Err)

-- `if (space) *space = 0`.
unfoldable pub cut_at : List ℕ → Search → Option (List ℕ)
cut_at request (at j) = some (set request j 0)
cut_at request missing = some request
cut_at request over_read = none

-- The request and its parameters, as arrays. The space is searched for before the question mark is
-- overwritten, in the whole of the data.
unfoldable pub split_at : List ℕ → Search → Option (List ℕ × Option (List ℕ))
unfolding cut_at
split_at request missing = some (request, none)
split_at request over_read = none
split_at request (at i) = cut_at (set request i 0) (strchr request b' ') >>= λ request'.
    some (request', some (drop (suc i) request'))

-- What `handle_tcp_data` passes on: `data + sizeof(HTTP_GET)`, and the parameters.
unfoldable pub parse_request : List ℕ → Option (List ℕ × Option (List ℕ))
unfolding split_at
parse_request data_ = let request = drop 4 data_ in split_at request (strchr request b'?')

unfoldable pub after_handler : Tcp → List ℕ → Session × Option Err → Step
unfolding http_send_404
after_handler env request (s, some e) = some (s, e)
after_handler env request (s, none) = http_send_404 env s request

unfoldable pub try_handler : Tcp → Option GetHandler → List ℕ → Option (List ℕ) → Session → Step
unfolding after_handler
try_handler env none request params s = http_send_404 env s request
try_handler env (some h) request params s = h request params s >>= λ r. after_handler env request r

unfoldable pub answer_page :
    Tcp → Option GetHandler → List ℕ → Option (List ℕ) → Session → Option Generator → Step
unfolding try_handler
answer_page env handler request params s (some g) = g params s
answer_page env handler request params s none = try_handler env handler request params s

-- `http_get_generate`: a registered page, else the handler, else not found.
unfoldable pub http_get_generate :
    Tcp → List (UrlItem Generator) → Option GetHandler → List ℕ → Option (List ℕ) → Session → Step
unfolding find_page answer_page
http_get_generate env pages handler request params s =
    find_page request pages >>= λ page. answer_page env handler request params s page

unfoldable pub handle_tcp_data : Tcp → List (UrlItem Generator) → Option GetHandler → Handler
unfolding parse_request http_get_generate
handle_tcp_data env pages handler data_ data_len s =
    let get = parse_request data_ >>= λ (request, params).
    http_get_generate env pages handler request params s in
    strncmp_eq (codes "GET") data_ >>= λ is_get. if is_get then get else some (s, ok)
