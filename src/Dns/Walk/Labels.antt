-- ===== src/Dns/Walk/Labels.antt =====
-- ap_website/dnsserver/dnsserver.c: the walk over the question ends, and on the labels of RFC 1035 it
-- ends behind the closing zero.
use native.Mathlib.Decide.{dec_lt, ℕ_discrete}
use pico_common.Common.{
  ℕ, zero, suc, ◌+◌, ◌*◌, ◌≤◌, ◌<◌, ◌≡◌, ◌∙◌, ap, List, [], ◌∷◌, ◌++◌, some, arith, ◌⊎◌, inl, inr,
  length, length-append, append_assoc, get_elem?, get_elem?-of-lt, get_elem?-append_right,
}
use pico_common.Dns.Walk.{stopped, bad_label, walk}

-- With fuel for half of the bytes left, the walk inside an array of `end` bytes at least neither
-- reads behind it nor runs out: it stops, not before where it began, or meets a label that is too
-- long.
pub walk_ends :
    (fuel : ℕ) (msg : List ℕ) (end ptr : ℕ)
    → end ≤ length msg
    → end + 2 ≤ ptr + 2 * fuel
    → 1 ≤ fuel
    → ((q : ℕ) × (ptr ≤ q) × (walk fuel msg end ptr ≡ stopped q))
      ⊎ (walk fuel msg end ptr ≡ bad_label)
unfolding walk
walk_ends zero msg end ptr fits enough some_fuel = absurd (omega arith)
walk_ends (suc fuel) msg end ptr fits enough some_fuel = elim (dec_lt ptr end) [
  | no past ↦ inl (ptr, omega arith, ground arith)
  | yes lt ↦
      let (n, e) = get_elem?-of-lt msg ptr (omega arith) in
      elim (ℕ_discrete n 0) [
        | yes fin ↦ inl (ptr + 1, omega arith, ground arith)
        | no more ↦ elim (dec_lt 63 n) [
          | yes long ↦ inr (ground arith)
          | no short ↦
              elim (walk_ends fuel msg end (ptr + 1 + n) fits (omega arith) (omega arith)) [
                | inl (q, le, w) ↦ inl (q, omega arith, ground arith)
                | inr w ↦ inr (ground arith)
              ]
        ]
      ]
]

-- A name as RFC 1035 writes it: each label behind its length, the whole before a zero.
abbrev pub encode : List (List ℕ) → List ℕ
encode [] = []
encode (l ∷ ls) = length l ∷ (l ++ encode ls)

abbrev pub AreLabels : List (List ℕ) → Type 0
AreLabels [] = Unit {0}
AreLabels (l ∷ ls) = (0 < length l) × (length l < 64) × AreLabels ls

label_step :
    (fuel : ℕ) (msg : List ℕ) (end ptr n : ℕ)
    → ptr < end
    → get_elem? msg ptr ≡ some n
    → 0 < n
    → n < 64
    → walk (suc fuel) msg end ptr ≡ walk fuel msg end (ptr + 1 + n)
unfolding walk
label_step fuel msg end ptr n lt e pos short = ground arith

label_end :
    (fuel : ℕ) (msg : List ℕ) (end ptr : ℕ)
    → ptr < end
    → get_elem? msg ptr ≡ some 0
    → walk (suc fuel) msg end ptr ≡ stopped (ptr + 1)
unfolding walk
label_end fuel msg end ptr lt e = ground arith

regroup :
    (before l more tail : List ℕ)
    → before ++ (length l ∷ ((l ++ more) ++ tail)) ≡ (before ++ (length l ∷ l)) ++ (more ++ tail)
regroup before l more tail = simp append_assoc

-- The walk over a name of labels and its zero, which starts behind `before` and whose labels end
-- before `end`, stops behind the zero, with fuel for half of the bytes to `end`.
pub walk-encode :
    (fuel : ℕ) (before : List ℕ) (labels : List (List ℕ)) (tail : List ℕ) (end ptr : ℕ)
    → AreLabels labels
    → ptr ≡ length before
    → length before + length (encode labels) < end
    → end + 2 ≤ ptr + 2 * fuel
    → walk fuel (before ++ (encode labels ++ 0 ∷ tail)) end ptr
      ≡ stopped (ptr + length (encode labels) + 1)
walk-encode zero before labels tail end ptr are at fits enough = absurd (omega arith)
walk-encode (suc fuel) before [] tail end ptr are at fits enough =
    label_end fuel _ end ptr (omega arith)
      (get_elem?-append_right before (0 ∷ tail) 0 ptr (omega arith))
    ∙ ap stopped (omega arith)
walk-encode (suc fuel) before (l ∷ ls) tail end ptr are at fits enough =
    let len : length (before ++ (length l ∷ l)) ≡ ptr + 1 + length l =
      omega (arith, length-append before (length l ∷ l)) in
    let whole = length-append l (encode ls) in
    let ih : walk fuel (before ++ (length l ∷ ((l ++ encode ls) ++ 0 ∷ tail))) end
          (ptr + 1 + length l)
        ≡ stopped (ptr + 1 + length l + length (encode ls) + 1) =
      rw (regroup before l (encode ls) (0 ∷ tail)) (
        walk-encode fuel (before ++ (length l ∷ l)) ls tail end (ptr + 1 + length l) are.2
          (omega (arith, len)) (omega (arith, len, whole)) (omega arith)) in
    label_step fuel _ end ptr (length l) (omega arith)
      (get_elem?-append_right before _ 0 ptr (omega arith)) are.0 are.1
    ∙ ih
    ∙ ap stopped (omega (arith, whole))
