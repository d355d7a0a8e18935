-- ===== src/Dhcp/Options/Scanning.antt =====
-- ap_website/dhcpserver/dhcpserver.c: the walk of `opt_find`, step by step, and its end.
use native.Mathlib.Decide.{dec_lt, ℕ_discrete}
use pico_common.Common.{
  ◌*◌, ◌∙◌, ℕ, zero, suc, ◌+◌, ◌≤◌, ◌<◌, ◌≡◌, ◌≢◌, refl, List, some, none, arith, get_elem?, Option,
  ◌⊎◌, inl, inr, ap,
}
use pico_common.Dhcp.Options.{Find, found, absent, over_read, scan, opt_find, opt_len, dhcp_opt_end}

-- The walk of `opt_find` from index `i` on, where every option has a length, within the array's bound. It has
-- no rule for running out of fuel.
pub data Scans (opt : List ℕ) (cmd : ℕ) : ℕ → Find → Type 0 where
  past_end : {i : ℕ} → opt_len ≤ i → Scans opt cmd i absent
  off_tag : {i : ℕ} → i < opt_len → get_elem? opt i ≡ none → Scans opt cmd i over_read
  at_end : {i : ℕ} → i < opt_len → get_elem? opt i ≡ some dhcp_opt_end → Scans opt cmd i absent
  hit :
      {i : ℕ}
      → i < opt_len
      → get_elem? opt i ≡ some cmd
      → cmd ≢ dhcp_opt_end
      → Scans opt cmd i (found i)
  off_len :
      {i : ℕ} (b : ℕ)
      → i < opt_len
      → get_elem? opt i ≡ some b
      → b ≢ dhcp_opt_end
      → b ≢ cmd
      → get_elem? opt (i + 1) ≡ none
      → Scans opt cmd i over_read
  skip :
      {i : ℕ} (b n : ℕ) {r : Find}
      → i < opt_len
      → get_elem? opt i ≡ some b
      → b ≢ dhcp_opt_end
      → b ≢ cmd
      → get_elem? opt (i + 1) ≡ some n
      → Scans opt cmd (i + 2 + n) r
      → Scans opt cmd i r

-- The cases of one byte of an array.
byte_cases : (o : Option ℕ) → (o ≡ none) ⊎ ((b : ℕ) × (o ≡ some b))
byte_cases none = inl refl
byte_cases (some b) = inr (b, refl)

pub tag_step :
    (fuel : ℕ) (opt : List ℕ) (cmd i b n : ℕ)
    → i < opt_len
    → get_elem? opt i ≡ some b
    → b ≢ dhcp_opt_end
    → b ≢ cmd
    → get_elem? opt (i + 1) ≡ some n
    → scan (suc fuel) opt cmd i ≡ scan fuel opt cmd (i + 2 + n)
unfolding scan
tag_step fuel opt cmd i b n lt eb ne nc en = ground arith

pub tag_end :
    (fuel : ℕ) (opt : List ℕ) (cmd i : ℕ)
    → i < opt_len
    → get_elem? opt i ≡ some dhcp_opt_end
    → scan (suc fuel) opt cmd i ≡ absent
unfolding scan
tag_end fuel opt cmd i lt eb = ground arith

pub tag_hit :
    (fuel : ℕ) (opt : List ℕ) (cmd i : ℕ)
    → i < opt_len
    → get_elem? opt i ≡ some cmd
    → cmd ≢ dhcp_opt_end
    → scan (suc fuel) opt cmd i ≡ found i
unfolding scan
tag_hit fuel opt cmd i lt eb ne = ground arith

pub tag_past :
    (fuel : ℕ) (opt : List ℕ) (cmd i : ℕ) → opt_len ≤ i → scan (suc fuel) opt cmd i ≡ absent
unfolding scan
tag_past fuel opt cmd i le = ground arith

pub tag_off :
    (fuel : ℕ) (opt : List ℕ) (cmd i : ℕ)
    → i < opt_len
    → get_elem? opt i ≡ none
    → scan (suc fuel) opt cmd i ≡ over_read
unfolding scan
tag_off fuel opt cmd i lt e = ground arith

pub tag_off_len :
    (fuel : ℕ) (opt : List ℕ) (cmd i b : ℕ)
    → i < opt_len
    → get_elem? opt i ≡ some b
    → b ≢ dhcp_opt_end
    → b ≢ cmd
    → get_elem? opt (i + 1) ≡ none
    → scan (suc fuel) opt cmd i ≡ over_read
unfolding scan
tag_off_len fuel opt cmd i b lt eb ne nc en = ground arith

scan-Scans :
    (fuel : ℕ) (opt : List ℕ) (cmd i : ℕ)
    → 1 ≤ fuel
    → opt_len + 2 ≤ i + 2 * fuel
    → Scans opt cmd i (scan fuel opt cmd i)
scan-Scans zero opt cmd i some_fuel enough = absurd (omega arith)
scan-Scans (suc fuel) opt cmd i some_fuel enough = elim (dec_lt i opt_len) [
  | no past ↦ rw (tag_past fuel opt cmd i (omega arith)) (past_end (omega arith))
  | yes lt ↦ elim (byte_cases (get_elem? opt i)) [
    | inl off ↦ rw (tag_off fuel opt cmd i lt off) (off_tag lt off)
    | inr (b, eb) ↦ elim (ℕ_discrete b dhcp_opt_end) [
      | yes fin ↦ let e = eb ∙ ap some fin in rw (tag_end fuel opt cmd i lt e) (at_end lt e)
      | no ne ↦ elim (ℕ_discrete b cmd) [
        | yes same ↦
            let e = eb ∙ ap some same in
            let ne' : cmd ≢ dhcp_opt_end = λ q. ne (same ∙ q) in
            rw (tag_hit fuel opt cmd i lt e ne') (hit lt e ne')
        | no nc ↦ elim (byte_cases (get_elem? opt (i + 1))) [
          | inl off ↦ rw (tag_off_len fuel opt cmd i b lt eb ne nc off) (off_len b lt eb ne nc off)
          | inr (n, en) ↦ rw (tag_step fuel opt cmd i b n lt eb ne nc en) (
              skip b n lt eb ne nc en
                (scan-Scans fuel opt cmd (i + 2 + n) (omega arith) (omega arith)))
        ]
      ]
    ]
  ]
]

-- On every array and for every tag, `opt_find` returns what the walk over the options, from index
-- 0, comes to by the rules of `Scans`: it never runs out of fuel.
pub opt_find-Scans : (opt : List ℕ) (cmd : ℕ) → Scans opt cmd 0 (opt_find opt cmd)
unfolding opt_find
opt_find-Scans opt cmd = scan-Scans 155 opt cmd 0 (omega arith) (omega arith)
