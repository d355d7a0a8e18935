-- ===== src/Console/Poll/Text.antt =====
-- serial_console/serial_console.cpp: what is typed before a newline, and the buffer it is written into.
use pico_common.Common.{
  ℕ, zero, suc, ◌+◌, ◌<◌, ◌≡◌, ◌≢◌, refl, ◌∙◌, ap, inl, inr, List, [], ◌∷◌, ◌++◌, true, arith,
  if◌then◌else◌, set, overwrite, Bool-cases, overwrite-nil, overwrite_one, overwrite-overwrite,
}
use pico_common.Http.Text.Strings.{Without}
use pico_common.Console.Poll.{newline, error_char, isprint}

-- What is typed before a newline: none of the bytes is a newline or the mark of an error.
abbrev pub IsText : List ℕ → Type 0
IsText [] = Unit {0}
IsText (c ∷ cs) = (c ≢ newline) × (c ≢ error_char) × IsText cs

-- The line: what is printable of it.
abbrev pub line_of : List ℕ → List ℕ
line_of [] = []
line_of (c ∷ cs) = if isprint c then c ∷ line_of cs else line_of cs

pub isprint-ne : (c n : ℕ) → n < 32 → isprint c ≡ true → c ≢ n
isprint-ne c n low printable = ground arith

pub line_of-Without : (cs : List ℕ) → Without 0 (line_of cs)
line_of-Without [] = tt
line_of-Without (c ∷ cs) = elim (Bool-cases (isprint c)) [
  | inl printable ↦ rw printable (isprint-ne c 0 (omega arith) printable, line_of-Without cs)
  | inr other ↦ rw other (line_of-Without cs)
]

overwrite-covers :
    (buf : List ℕ) (i c : ℕ) (line : List ℕ)
    → overwrite (overwrite buf i (c ∷ 0 ∷ [])) (suc i) (line ++ 0 ∷ [])
      ≡ overwrite buf i (c ∷ (line ++ 0 ∷ []))
overwrite-covers [] i c line = refl
overwrite-covers (x ∷ []) zero c line = refl
overwrite-covers (x ∷ y ∷ xs) zero c [] = ap (λ l. c ∷ 0 ∷ l) (overwrite-nil (overwrite xs 0 []) 0)
overwrite-covers (x ∷ y ∷ xs) zero c (b ∷ bs) =
    ap (λ l. c ∷ b ∷ overwrite l 0 (bs ++ 0 ∷ [])) (overwrite-nil xs 0)
overwrite-covers (x ∷ xs) (suc i) c line = ap (◌∷◌ x) (overwrite-covers xs i c line)

pub overwrite-covers_plus :
    (buf : List ℕ) (i c : ℕ) (line : List ℕ)
    → overwrite (overwrite buf i (c ∷ 0 ∷ [])) (i + 1) (line ++ 0 ∷ [])
      ≡ overwrite buf i (c ∷ (line ++ 0 ∷ []))
overwrite-covers_plus buf i c line =
    ap (λ j. overwrite (overwrite buf i (c ∷ 0 ∷ [])) j (line ++ 0 ∷ [])) (omega arith)
    ∙ overwrite-covers buf i c line

pub two_stores :
    (buf : List ℕ) (i c : ℕ) → set (set buf i c) (i + 1) 0 ≡ overwrite buf i (c ∷ 0 ∷ [])
two_stores buf i c =
    overwrite_one (set buf i c) (i + 1) 0
    ∙ (ap (λ b. overwrite b (i + 1) (0 ∷ [])) (overwrite_one buf i c)
        ∙ overwrite-overwrite buf i (i + 1) (c ∷ []) (0 ∷ []) refl)
