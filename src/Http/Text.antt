-- ===== src/Http/Text.antt =====
-- C strings in an array of bytes, and the texts that http_server/http_server.c sends. A search that
-- meets neither what it looks for nor a closing zero reads behind the array.
pub mod Strings
pub mod Closed
pub mod Numbers
use Prim.Native.Char.{code}
use Prim.Native.String.{String}
use pico_common.Common.{
  ℕ, zero, suc, ◌+◌, ◌-◌, ◌/◌, ◌%◌, ◌^◌, List, [], ◌∷◌, ◌++◌, Bool, true, false, Option, none, some,
  ltb, ◌==◌, if◌then◌else◌, ◌>>=◌, overwrite, replicate, take, length,
}

abbrev pub codes : String → List ℕ
codes String.[] = []
codes (String.◌∷◌ c s) = code c ∷ codes s

pub data Search : Type 0 where
  at : ℕ → Search
  missing over_read : Search

abbrev pub later : Search → Search
later (at i) = at (suc i)
later missing = missing
later over_read = over_read

-- `strchr(s, ch)` for a character that is not the closing zero, as an index.
unfoldable pub strchr : List ℕ → ℕ → Search
strchr [] ch = over_read
strchr (b ∷ bs) ch =
    let rest = later (strchr bs ch) in if b == ch then at 0 else if b == 0 then missing else rest

-- `find_first_index(s, ch, max_length)` from index `i` on; -1 is `missing`.
unfoldable pub find_first_index_from : List ℕ → ℕ → ℕ → ℕ → Search
find_first_index_from [] ch max i = over_read
find_first_index_from (b ∷ bs) ch max i =
    let rest = find_first_index_from bs ch max (i + 1) in
    let here = if b == ch then at i else rest in
    if b == 0 then missing else if ltb i max then here else missing

unfoldable pub find_first_index : List ℕ → ℕ → ℕ → Search
unfolding find_first_index_from
find_first_index str ch max_length = find_first_index_from str ch max_length 0

-- The bytes before the closing zero.
unfoldable pub c_string : List ℕ → Option (List ℕ)
c_string [] = none
c_string (b ∷ bs) = let rest = c_string bs >>= λ s. some (b ∷ s) in if b == 0 then some [] else rest

-- `strncmp(prefix, s, n) == 0` for a prefix of n bytes, none of them zero.
unfoldable pub strncmp_eq : List ℕ → List ℕ → Option Bool
strncmp_eq [] s = some true
strncmp_eq (p ∷ ps) [] = none
strncmp_eq (p ∷ ps) (b ∷ bs) = let rest = strncmp_eq ps bs in if p == b then rest else some false

-- The decimal digits of a number below 10 ^ fuel.
unfoldable pub digits : ℕ → ℕ → List ℕ
digits zero n = []
digits (suc fuel) n =
    let more = digits fuel (n / 10) ++ (b'0' + n % 10) ∷ [] in
    if ltb n 10 then (b'0' + n) ∷ [] else more

-- `%d` of an `unsigned int`, which is read as an `int`.
unfoldable pub print_d : ℕ → List ℕ
unfolding digits
print_d n = if ltb n (2 ^ 31) then digits 10 n else b'-' ∷ digits 10 (2 ^ 32 - n)

-- `snprintf` into an array of `size` zero bytes: the array, and the length of the whole text.
unfoldable pub snprintf : ℕ → List ℕ → List ℕ × ℕ
snprintf size text = (overwrite (replicate size 0) 0 (take (size - 1) text), length text)

unfoldable pub http_response_headers : ℕ → List ℕ
unfolding print_d
http_response_headers n =
    codes "HTTP/1.1 200 OK\nServer: PICOW (RP2040)\nContent-Length: "
    ++ (print_d n ++ codes "\nContent-Type: text/html; charset=utf-8\nConnection: close\n\n")

unfoldable pub http_response_not_found_header : ℕ → List ℕ
unfolding print_d
http_response_not_found_header n =
    codes "HTTP/1.1 404 Not Found\nServer: PICOW (RP2040)\nContent-Length: "
    ++ (print_d n ++ codes "\nContent-Type: text/html; charset=utf-8\nConnection: close\n\n")

unfoldable pub not_found_body : List ℕ → List ℕ
not_found_body url =
    codes
      "<!DOCTYPE HTML PUBLIC \"-//IETF//DTD HTML 2.0//EN\">\n<html>\n<head>\n   <title>404 Not Found</title>\n</head>\n<body>\n   <h1>Not Found</h1>\n   <p>The requested URL \""
    ++ (url ++ codes "\" was not found on this server.</p>\n</body>\n</html>")
