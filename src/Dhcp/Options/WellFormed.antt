-- ===== src/Dhcp/Options/WellFormed.antt =====
-- ap_website/dhcpserver/dhcpserver.c: packets whose options are each a tag, a length and a body.
use native.Mathlib.Decide.{ℕ_discrete}
use pico_common.Common.{
  ℕ, ◌+◌, ◌≤◌, ◌<◌, ◌≡◌, ◌≢◌, refl, ap, ◌∙◌, ◌⊎◌, inl, inr, List, [], ◌∷◌, ◌++◌, true, false, arith,
  length, length-append, ◌==◌,
}
use pico_common.Dhcp.Options.{found, absent, opt_find, dhcp_opt_end}
use pico_common.Dhcp.Options.Encoding.{Tagged, encode, NoEnd, place_of, opt_find-encode}

-- A search that ends within the array, with as many bytes from the option on as are read.
abbrev pub Reads : List ℕ → ℕ → ℕ → Type 0
Reads opt cmd n =
    (opt_find opt cmd ≡ absent) ⊎ ((o : ℕ) × (opt_find opt cmd ≡ found o) × (o + n ≤ 308))

-- Every option with the tag has a body of at least `n` bytes.
abbrev pub AllLong : ℕ → ℕ → List Tagged → Type 0
AllLong cmd n [] = Unit {0}
AllLong cmd n (o ∷ os) = ((o.tag ≡ cmd) → n ≤ length o.body) × AllLong cmd n os

-- Options that are each written as a tag, a length and a body, so none of them the pad of RFC 2132, which has no
-- length; they are closed by the end tag within the array, and each message type has a byte and each requested
-- address four.
pub record IsWellFormed (opt : List ℕ) : Type 0 where
  pub options : List Tagged
  pub rest : List ℕ
  pub written : opt ≡ encode options ++ dhcp_opt_end ∷ rest
  pub no_end : NoEnd options
  pub short : length (encode options) < 308
  pub types : AllLong 53 1 options
  pub addresses : AllLong 50 4 options

place_of-Reads :
    (cmd n i : ℕ) (os : List Tagged)
    → AllLong cmd n os
    → (place_of cmd i os ≡ absent)
      ⊎ ((o : ℕ) × (place_of cmd i os ≡ found o) × (o + 2 + n ≤ i + length (encode os)))
unfolding place_of
place_of-Reads cmd n i [] long = inl refl
place_of-Reads cmd n i (x ∷ os) long = elim (ℕ_discrete x.tag cmd) [
  | yes same ↦
      let is : (x.tag == cmd) ≡ true = ground arith in
      inr (i, rw is refl, omega (arith, long.0 same, length-append x.body (encode os)))
  | no other ↦
      let is : (x.tag == cmd) ≡ false = ground arith in
      rw is (elim (place_of-Reads cmd n (i + 2 + length x.body) os long.1) [
        | inl missing ↦ inl missing
        | inr (o, at, within) ↦ inr (o, at, omega (arith, within, length-append x.body (encode os)))
      ])
]

pub IsWellFormed-Reads :
    (opt : List ℕ) (cmd n : ℕ) (w : IsWellFormed opt)
    → cmd ≢ dhcp_opt_end
    → AllLong cmd n w.options
    → Reads opt cmd (2 + n)
IsWellFormed-Reads opt cmd n w ne long =
    let found_at : opt_find opt cmd ≡ place_of cmd 0 w.options =
      ap (λ t. opt_find t cmd) w.written
      ∙ opt_find-encode cmd w.options w.rest w.no_end ne (omega (arith, w.short)) in
    elim (place_of-Reads cmd n 0 w.options long) [
      | inl missing ↦ inl (found_at ∙ missing)
      | inr (o, at, within) ↦ inr (o, found_at ∙ at, omega (arith, within, w.short))
    ]
