-- ===== src/Dhcp/Options/Encoding.antt =====
-- ap_website/dhcpserver/dhcpserver.c: `opt_find` against options that are seen as a list of
-- tagged bodies.
use native.Mathlib.Decide.{ℕ_discrete}
use pico_common.Common.{
  ◌*◌, ◌∙◌, ℕ, zero, suc, ◌+◌, ◌≤◌, ◌<◌, ◌≡◌, ◌≢◌, List, [], ◌∷◌, ◌++◌, some, arith, length,
  get_elem?, ◌==◌, if◌then◌else◌, length-append, append_assoc, get_elem?-append_right, ap,
}
use pico_common.Dhcp.Options.{Find, found, absent, scan, opt_find, opt_len, dhcp_opt_end}
use pico_common.Dhcp.Options.Scanning.{tag_step, tag_end, tag_hit}

-- An option with a length, as RFC 2132 writes it, and such options one after the other. The pad has no length.
pub record Tagged : Type 0 where
  pub tag : ℕ
  pub body : List ℕ

abbrev pub encode : List Tagged → List ℕ
encode [] = []
encode (o ∷ os) = o.tag ∷ length o.body ∷ (o.body ++ encode os)

-- No option before the end carries the end tag.
abbrev pub NoEnd : List Tagged → Type 0
NoEnd [] = Unit {0}
NoEnd (o ∷ os) = (o.tag ≢ dhcp_opt_end) × NoEnd os

-- Where the first option with the tag stands, `i` being the place of the first of them all.
unfoldable pub place_of : ℕ → ℕ → List Tagged → Find
place_of cmd i [] = absent
place_of cmd i (o ∷ os) = if o.tag == cmd then found i else place_of cmd (i + 2 + length o.body) os

-- The array at the place of an option that starts behind `before`.
tag_at :
    (before : List ℕ) (o : Tagged) (rest : List ℕ)
    → get_elem? (before ++ o.tag ∷ length o.body ∷ rest) (length before) ≡ some o.tag
tag_at before o rest = get_elem?-append_right before _ 0 _ (omega arith)

len_at :
    (before : List ℕ) (o : Tagged) (rest : List ℕ)
    → get_elem? (before ++ o.tag ∷ length o.body ∷ rest) (length before + 1) ≡ some (length o.body)
len_at before o rest = get_elem?-append_right before _ 1 _ (omega arith)

abbrev one : Tagged → List ℕ
one o = o.tag ∷ length o.body ∷ o.body

regroup :
    (before : List ℕ) (o : Tagged) (more tail : List ℕ)
    → before ++ (o.tag ∷ length o.body ∷ ((o.body ++ more) ++ tail))
      ≡ (before ++ one o) ++ (more ++ tail)
regroup before o more tail = simp append_assoc

scan-place_of :
    (fuel cmd : ℕ) (before : List ℕ) (os : List Tagged) (rest : List ℕ)
    → NoEnd os
    → cmd ≢ dhcp_opt_end
    → length before + length (encode os) < opt_len
    → opt_len + 2 ≤ length before + 2 * fuel
    → scan fuel (before ++ (encode os ++ dhcp_opt_end ∷ rest)) cmd (length before)
      ≡ place_of cmd (length before) os
unfolding place_of
scan-place_of zero cmd before os rest ne nc short enough = absurd (omega arith)
scan-place_of (suc fuel) cmd before [] rest ne nc short enough =
    tag_end fuel _ cmd _ (omega arith) (get_elem?-append_right before _ 0 _ (omega arith))
scan-place_of (suc fuel) cmd before (o ∷ os) rest ne nc short enough = elim (ℕ_discrete o.tag cmd) [
  | yes same ↦
      tag_hit fuel _ cmd _ (omega arith) (tag_at before o tail ∙ ap some same) nc ∙ ground arith
  | no other ↦
      let ih : scan fuel (before ++ (o.tag ∷ length o.body ∷ tail)) cmd behind
          ≡ place_of cmd behind os =
        rw (regroup before o (encode os) (dhcp_opt_end ∷ rest), ← len)
          (scan-place_of fuel cmd (before ++ one o) os rest ne.1 nc
            (omega (arith, len, length-append o.body (encode os))) (omega (arith, len))) in
      tag_step fuel _ cmd _ o.tag (length o.body) (omega arith) (tag_at before o tail) ne.0 other
        (len_at before o tail)
      ∙ ih
      ∙ ground arith
]
  where
    tail : List ℕ
    tail = (o.body ++ encode os) ++ dhcp_opt_end ∷ rest

    behind : ℕ
    behind = length before + 2 + length o.body

    len : length (before ++ one o) ≡ length before + 2 + length o.body
    len = omega (arith, length-append before (one o))

-- On options that are written as tag, length and body, none of them with the end tag, and closed
-- by the end tag within the array, `opt_find` finds the first option with a tag other than the end
-- tag at the place where it stands, or none if there is none.
pub opt_find-encode :
    (cmd : ℕ) (os : List Tagged) (rest : List ℕ)
    → NoEnd os
    → cmd ≢ dhcp_opt_end
    → length (encode os) < opt_len
    → opt_find (encode os ++ dhcp_opt_end ∷ rest) cmd ≡ place_of cmd 0 os
unfolding opt_find
opt_find-encode cmd os rest ne nc short =
    scan-place_of 155 cmd [] os rest ne nc (omega arith) (omega arith)

-- No option carries the tag.
abbrev pub Lacks : ℕ → List Tagged → Type 0
Lacks cmd [] = Unit {0}
Lacks cmd (o ∷ os) = (o.tag ≢ cmd) × Lacks cmd os
