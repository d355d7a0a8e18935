-- ===== src/Example/Prefixes.antt =====
-- ap_website/url_collection.cpp: a request that begins with the texts of two pages.
use pico_common.Common.{ℕ, ◌<◌, ◌≡◌, refl, List, [], ◌∷◌, true, false, some, arith, ◌>>=◌}
use pico_common.Http.Text.{c_string}
use pico_common.Http.Url.{UrlItem, is_prefix, first_prefix, register_url, find_handeler}

module _ {G : Type 0} where
  -- None of the pages' texts begins the request.
  abbrev pub NoPrefix : List ℕ → List (UrlItem G) → Type 0
  NoPrefix key [] = Unit {0}
  NoPrefix key (x ∷ xs) = (is_prefix x.url key ≡ false) × NoPrefix key xs

  alone :
      (key : List ℕ) (item : UrlItem G) (pages : List (UrlItem G))
      → NoPrefix key pages
      → is_prefix item.url key ≡ true
      → first_prefix key (register_url item pages) ≡ some item
  unfolding first_prefix register_url
  alone key item [] clear begins = rw begins refl
  alone key item (x ∷ xs) clear begins = ground (arith, alone key item xs clear.1 begins)

  before :
      (key : List ℕ) (low high : UrlItem G) (pages : List (UrlItem G))
      → NoPrefix key pages
      → is_prefix low.url key ≡ true
      → is_prefix high.url key ≡ true
      → low.addr < high.addr
      → (first_prefix key (register_url low (register_url high pages)) ≡ some low)
        × (first_prefix key (register_url high (register_url low pages)) ≡ some low)
  unfolding first_prefix register_url
  before key low high [] clear begins begins' less = ground arith
  before key low high (x ∷ xs) clear begins begins' less =
      let (ih, ih') = before key low high xs clear.1 begins begins' less in
      ground (arith, ih, ih', alone key low xs clear.1 begins, alone key high xs clear.1 begins')

  -- Of two pages whose texts both begin the request, while no other page's text does, the search finds
  -- the one whose text has the lower address, in whichever order they were registered and whichever text
  -- is longer.
  pub find_handeler-lower_address :
      (request key : List ℕ) (low high : UrlItem G) (pages : List (UrlItem G))
      → c_string request ≡ some key
      → NoPrefix key pages
      → is_prefix low.url key ≡ true
      → is_prefix high.url key ≡ true
      → low.addr < high.addr
      → (find_handeler request (register_url low (register_url high pages)) ≡ some (some low))
        × (find_handeler request (register_url high (register_url low pages)) ≡ some (some low))
  unfolding find_handeler
  find_handeler-lower_address request key low high pages str clear begins begins' less =
      let (one, other) = before key low high pages clear begins begins' less in
      (rw (str, ◌>>=◌, one) refl, rw (str, ◌>>=◌, other) refl)
