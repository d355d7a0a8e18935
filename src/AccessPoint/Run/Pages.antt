-- ===== src/AccessPoint/Run/Pages.antt =====
-- ap_website/picow_access_point.c: pages and handlers that a connection can trust.
use pico_common.Common.{
  ℕ, ◌≤◌, ◌≡◌, refl, List, [], ◌∷◌, Option, none, some, inl, inr, ◌>>=◌, length, Bool-cases,
}
use pico_common.Http.Text.Closed.{HasZero, c_string-total}
use pico_common.Http.Url.{UrlItem, is_prefix, first_prefix, find_handeler, generator_of}
use pico_common.Tcp.Session.{Err}
use pico_common.AccessPoint.Connection.{Session}
use pico_common.AccessPoint.Request.{Generator, GetHandler, Site, create_html_page}
use pico_common.AccessPoint.Safety.{IsOpen, Sound}

-- A page whose generator, if it has one, is a sound step on every open connection.
abbrev pub SoundPage : Option Generator → Type 0
SoundPage none = Unit {0}
SoundPage (some g) = (params : Option (List ℕ)) (s : Session) → IsOpen s → Sound (g params s)

abbrev pub AllSound : List (UrlItem Generator) → Type 0
AllSound [] = Unit {0}
AllSound (x ∷ xs) = SoundPage x.html_generator_func × AllSound xs

-- What a handler may do: answer with a sound step, or leave the connection open and decline.
pub data Handled : Option (Session × Option Err) → Type 0 where
  answered : (s : Session) (e : Err) → Sound (some (s, e)) → Handled (some (s, some e))
  declined : (s : Session) → IsOpen s → Handled (some (s, none))

abbrev pub SoundHandler : Option GetHandler → Type 0
SoundHandler none = Unit {0}
SoundHandler (some h) =
    (request : List ℕ) (params : Option (List ℕ)) (s : Session)
    → IsOpen s
    → Handled (h request params s)

pub record IsSoundSite (site : Site) : Type 0 where
  pub pages_sound : AllSound site.pages
  pub handler_sound : SoundHandler site.get_handler
  pub url_short : length site.default_url ≤ 17

first_prefix-SoundPage :
    (key : List ℕ) (pages : List (UrlItem Generator))
    → AllSound pages
    → SoundPage (generator_of (first_prefix key pages))
unfolding first_prefix
first_prefix-SoundPage key [] sound = tt
first_prefix-SoundPage key (x ∷ xs) sound = elim (Bool-cases (is_prefix x.url key)) [
  | inl begins ↦ rw begins sound.0
  | inr other ↦ rw other (first_prefix-SoundPage key xs sound.1)
]

pub create_html_page-total :
    (request : List ℕ) (pages : List (UrlItem Generator))
    → HasZero request
    → AllSound pages
    → (page : Option Generator) × (create_html_page request pages ≡ some page) × SoundPage page
unfolding create_html_page find_handeler
create_html_page-total request pages z sound =
    let (key, is) = c_string-total request z in
    (
      generator_of (first_prefix key pages),
      rw (is, ◌>>=◌) refl,
      first_prefix-SoundPage key pages sound,
    )

pub packets-IsOpen : (s : Session) (n : ℕ) → IsOpen s → IsOpen (record s { packets = n })
packets-IsOpen s n o = record {
  state = o.state;
  held = o.held;
  pcb_held = o.pcb_held;
  listens = o.listens;
  sound = o.sound;
}
