-- ===== src/Http/Request/Pages.antt =====
-- http_server/http_server.c: which generator answers a request.
use pico_common.Common.{
  ℕ, ◌<◌, ◌≡◌, refl, List, [], ◌∷◌, ◌++◌, Option, none, some, arith, length, length-append, ◌>>=◌,
}
use pico_common.Http.Text.{codes, strncmp_eq, c_string}
use pico_common.Http.Text.Strings.{Without}
use pico_common.Http.Url.{UrlItem, register_url, until_space}
use pico_common.Http.Url.Lookup.{Unlisted, find_page-register}
use pico_common.Http.Request.{
  Generator, GetHandler, answer_page, http_get_generate, handle_tcp_data,
}
use pico_common.Http.Request.Parts.{parse_request-query, parse_request-plain}
use pico_common.Tcp.Session.{Session, Tcp}

until_space-none : (url : List ℕ) → Without b' ' url → until_space url ≡ url
until_space-none [] w = refl
until_space-none (b ∷ bs) w = ground (arith, until_space-none bs w.1)

until_space-some : (url rest : List ℕ) → Without b' ' url → until_space (url ++ b' ' ∷ rest) ≡ url
until_space-some [] rest w = refl
until_space-some (b ∷ bs) rest w = ground (arith, until_space-some bs rest w.1)

generate :
    (env : Tcp) (item : UrlItem Generator) (g : Generator) (pages : List (UrlItem Generator))
    (handler : Option GetHandler) (request key : List ℕ) (params : Option (List ℕ)) (s : Session)
    → item.html_generator_func ≡ some g
    → Unlisted item.url pages
    → c_string request ≡ some key
    → until_space key ≡ item.url
    → 0 < length key
    → length item.url < 512
    → http_get_generate env (register_url item pages) handler request params s ≡ g params s
unfolding http_get_generate answer_page
generate env item g pages handler request key params s gen none_of str cut some_key short =
    rw (find_page-register item g pages request key gen none_of str cut some_key short, ◌>>=◌) refl

-- A request "GET path?params rest" for the text of a page with a generator, which was not
-- registered before, is neither empty nor longer than 511 bytes and has no question mark, space or
-- zero, is answered by that page's generator with the parameters as a C string, where these have
-- no space or zero.
pub handle_tcp_data-query :
    (env : Tcp) (item : UrlItem Generator) (g : Generator) (pages : List (UrlItem Generator))
    (handler : Option GetHandler) (params rest : List ℕ) (n : ℕ) (s : Session)
    → item.html_generator_func ≡ some g
    → Unlisted item.url pages
    → Without b'?' item.url
    → Without 0 item.url
    → Without b' ' item.url
    → 0 < length item.url
    → length item.url < 512
    → Without b' ' params
    → Without 0 params
    → (given : List ℕ) × (handle_tcp_data env
          (register_url item pages)
          handler
          (codes "GET " ++ (item.url ++ b'?' ∷ (params ++ b' ' ∷ rest)))
          n
          s
        ≡ g (some given) s)
      × (c_string given ≡ some params)
unfolding handle_tcp_data strncmp_eq
handle_tcp_data-query env item g pages handler params rest n s gen none_of q z sp some_url short sp'
      z' =
    let (request, given, parsed, is_url, is_params) =
      parse_request-query item.url params rest q z sp sp' z' in
    (
      given,
      rw (parsed, ◌>>=◌)
          (generate env item g pages handler request item.url (some given) s gen none_of is_url
            (until_space-none item.url sp) some_url short),
      is_params,
    )

-- A request "GET path rest" before a closing zero, without a question mark or another zero, for
-- the text of a page with a generator, which was not registered before, is at most 511 bytes long
-- and has no space, is answered by that page's generator without parameters.
pub handle_tcp_data-plain :
    (env : Tcp) (item : UrlItem Generator) (g : Generator) (pages : List (UrlItem Generator))
    (handler : Option GetHandler) (more rest : List ℕ) (n : ℕ) (s : Session)
    → item.html_generator_func ≡ some g
    → Unlisted item.url pages
    → Without b'?' (item.url ++ b' ' ∷ more)
    → Without 0 (item.url ++ b' ' ∷ more)
    → Without b' ' item.url
    → length item.url < 512
    → handle_tcp_data env
        (register_url item pages)
        handler
        (codes "GET " ++ ((item.url ++ b' ' ∷ more) ++ 0 ∷ rest))
        n
        s
      ≡ g none s
unfolding handle_tcp_data strncmp_eq
handle_tcp_data-plain env item g pages handler more rest n s gen none_of q z sp short =
    let (parsed, is_line) = parse_request-plain (item.url ++ b' ' ∷ more) rest q z in
    rw (parsed, ◌>>=◌)
      (generate env item g pages handler ((item.url ++ b' ' ∷ more) ++ 0 ∷ rest)
        (item.url ++ b' ' ∷ more) none s gen none_of is_line (until_space-some item.url more sp)
        (omega (arith, length-append item.url (b' ' ∷ more))) short)
