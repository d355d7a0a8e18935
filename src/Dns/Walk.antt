-- ===== src/Dns/Walk.antt =====
-- ap_website/dnsserver/dnsserver.c: the loop of `dns_server_process` over the labels of the question.
pub mod Labels
use pico_common.Common.{
  ℕ, zero, suc, ◌+◌, List, Option, none, some, ltb, ◌==◌, if◌then◌else◌, get_elem?,
}

-- Where the loop leaves `question_ptr`, as an index into the message, or a label that is too long.
pub data Walk : Type 0 where
  stopped : ℕ → Walk
  bad_label over_read out_of_fuel : Walk

abbrev pub at_label : Option ℕ → ℕ → (ℕ → Walk) → Walk
at_label none ptr go_on = over_read
at_label (some n) ptr go_on =
    if n == 0 then stopped (ptr + 1) else if ltb 63 n then bad_label else go_on n

-- Each round goes on by two bytes at least.
unfoldable pub walk : ℕ → List ℕ → ℕ → ℕ → Walk
walk zero msg end ptr = out_of_fuel
walk (suc fuel) msg end ptr =
    let rest = at_label (get_elem? msg ptr) ptr (λ n. walk fuel msg end (ptr + 1 + n)) in
    if ltb ptr end then rest else stopped ptr
