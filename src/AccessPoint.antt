-- ===== src/AccessPoint.antt =====
-- ap_website/picow_access_point.c: the requests that a client makes by itself, to find out whether it
-- is behind a captive portal.
pub mod Connection
pub mod Request
pub mod Buffer
pub mod Safety
pub mod Run
pub mod Delivered
pub mod Lifecycle
pub mod Defaults
pub mod Portal
pub mod Tests
use pico_common.Common.{ℕ, List, Bool, ◌||◌, Option, some, ◌>>=◌}
use pico_common.Http.Text.{codes, strncmp_eq}

abbrev pub default_request_one : List ℕ
default_request_one = codes "/connecttest.txt"

abbrev pub default_request_two : List ℕ
default_request_two = codes "/favicon.ico"

abbrev pub default_request_three : List ℕ
default_request_three = codes "/redirect"

-- All three are compared before the first result is looked at.
unfoldable pub is_default_requests : List ℕ → Option Bool
unfolding strncmp_eq
is_default_requests request = strncmp_eq default_request_one request >>= λ one.
    strncmp_eq default_request_two request >>= λ two.
    strncmp_eq default_request_three request >>= λ three. some (one || (two || three))
