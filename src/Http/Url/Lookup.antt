-- ===== src/Http/Url/Lookup.antt =====
-- http_server/url_collection.cpp: what a lookup finds.
use pico_common.Common.{
  ℕ, ◌<◌, ◌≡◌, ◌≢◌, List, [], ◌∷◌, some, arith, ◌>>=◌, bytes_eq_refl, bytes_eq_iff, length,
}
use pico_common.Http.Text.{c_string}
use pico_common.Http.Url.{UrlItem, register_url, first_equal, until_space, find_page}

module _ {G : Type 0} where
  -- No item of the list has this text.
  abbrev pub Unlisted : List ℕ → List (UrlItem G) → Type 0
  Unlisted url [] = Unit {0}
  Unlisted url (x ∷ xs) = (x.url ≢ url) × Unlisted url xs

  first_equal-register :
      (item : UrlItem G) (m : List (UrlItem G))
      → Unlisted item.url m
      → first_equal item.url (register_url item m) ≡ some item
  unfolding first_equal register_url
  first_equal-register item [] none_of = rw bytes_eq_refl
  first_equal-register item (x ∷ xs) none_of = ground (
    arith,
    first_equal-register item xs none_of.1,
    bytes_eq_iff x.url item.url,
    bytes_eq_refl item.url,
  )

  -- A page with a generator, whose text was not registered before and is at most 511 bytes long,
  -- is found by any non-empty request whose part before the first space is its text, whatever
  -- other pages there are, also where their texts begin the request.
  pub find_page-register :
      (item : UrlItem G) (g : G) (m : List (UrlItem G)) (request key : List ℕ)
      → item.html_generator_func ≡ some g
      → Unlisted item.url m
      → c_string request ≡ some key
      → until_space key ≡ item.url
      → 0 < length key
      → length item.url < 512
      → find_page request (register_url item m) ≡ some (some g)
  unfolding find_page
  find_page-register item g m request key gen none_of str cut some_key short =
      rw (str, ◌>>=◌, cut, first_equal-register item m none_of) (ground arith)
