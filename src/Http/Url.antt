-- ===== src/Http/Url.antt =====
-- http_server/url_collection.cpp: the registered pages. The map's keys are pointers, so it is ordered
-- by the addresses of the texts, not by the texts.
pub mod Lookup
use pico_common.Common.{
  ℕ, ◌+◌, List, [], ◌∷◌, Bool, true, false, Option, none, some, ltb, ◌==◌, if◌then◌else◌, ◌>>=◌,
  bytes_eq, length, take,
}
use pico_common.Http.Text.{c_string}

-- `url_item_t` with its key. `html_generator_func` is `none` where it is NULL.
pub record UrlItem (G : Type 0) : Type 0 where
  pub addr : ℕ
  pub url : List ℕ
  pub html_generator_func : Option G

abbrev pub is_prefix : List ℕ → List ℕ → Bool
is_prefix [] s = true
is_prefix (p ∷ ps) [] = false
is_prefix (p ∷ ps) (b ∷ bs) = if p == b then is_prefix ps bs else false

-- The bytes before the first space.
abbrev pub until_space : List ℕ → List ℕ
until_space [] = []
until_space (b ∷ bs) = if b == b' ' then [] else b ∷ until_space bs

module _ {G : Type 0} where
  -- `url_map[url] = item`.
  unfoldable pub register_url : UrlItem G → List (UrlItem G) → List (UrlItem G)
  register_url item [] = item ∷ []
  register_url item (x ∷ xs) =
      let behind = x ∷ register_url item xs in
      if ltb item.addr x.addr
      then item ∷ x ∷ xs
      else if item.addr == x.addr
      then item ∷ xs
      else behind

  -- The first item, in the map's order, whose text begins the request.
  unfoldable pub first_prefix : List ℕ → List (UrlItem G) → Option (UrlItem G)
  first_prefix key [] = none
  first_prefix key (x ∷ xs) = if is_prefix x.url key then some x else first_prefix key xs

  -- The first item, in the map's order, whose text is the request.
  unfoldable pub first_equal : List ℕ → List (UrlItem G) → Option (UrlItem G)
  first_equal key [] = none
  first_equal key (x ∷ xs) = if bytes_eq x.url key then some x else first_equal key xs

  -- `find_handeler`. The request is an array; outer `none` is a read behind it.
  unfoldable pub find_handeler : List ℕ → List (UrlItem G) → Option (Option (UrlItem G))
  unfolding first_prefix
  find_handeler key_or_more url_map =
      c_string key_or_more >>= λ key. some (first_prefix key url_map)

  -- `find_exact`: the part before a space is copied into 512 bytes, and must leave a zero there.
  unfoldable pub find_exact : List ℕ → List (UrlItem G) → Option (Option (UrlItem G))
  unfolding first_equal
  find_exact key_or_more url_map = c_string key_or_more >>= λ key.
      let request_url = until_space key in
      let found =
        if ltb (length request_url) 512 then some (first_equal request_url url_map) else none in
      if length key == 0 then some none else found

  abbrev pub generator_of : Option (UrlItem G) → Option G
  generator_of none = none
  generator_of (some item) = item.html_generator_func

  abbrev pub or_else : Option G → Option (Option (UrlItem G)) → Option (Option G)
  or_else (some g) second = some (some g)
  or_else none none = none
  or_else none (some item) = some (generator_of item)

  -- The page that `create_html_page` calls, if it finds one.
  unfoldable pub find_page : List ℕ → List (UrlItem G) → Option (Option G)
  unfolding find_exact find_handeler
  find_page request url_map = find_exact request url_map >>= λ exact.
      or_else (generator_of exact) (find_handeler request url_map)
