-- ===== src/AccessPoint/Defaults.antt =====
-- ap_website/picow_access_point.c: which requests `is_default_requests` takes.
use pico_common.Common.{
  ℕ, ◌≡◌, refl, ap, ◌∙◌, List, [], ◌∷◌, ◌++◌, Bool, true, false, ◌||◌, some, arith, ◌↔◌, ◌⊎◌, inl,
  inr,
}
use pico_common.Http.Text.{strncmp_eq}
use pico_common.Http.Text.Strings.{Without}
use pico_common.Http.Url.{is_prefix}
use pico_common.AccessPoint.{
  default_request_one, default_request_two, default_request_three, is_default_requests,
}

-- The text is the prefix and something behind it.
abbrev pub Begins : List ℕ → List ℕ → Type 0
Begins prefix text = (more : List ℕ) × (text ≡ prefix ++ more)

is_prefix-append : (prefix more : List ℕ) → is_prefix prefix (prefix ++ more) ≡ true
is_prefix-append [] more = refl
is_prefix-append (p ∷ ps) more = ground (arith, is_prefix-append ps more)

pub is_prefix-Begins : (prefix text : List ℕ) → is_prefix prefix text ≡ true → Begins prefix text
is_prefix-Begins [] text h = (text, refl)
is_prefix-Begins (p ∷ ps) [] h = absurd (ground arith)
is_prefix-Begins (p ∷ ps) (b ∷ bs) h =
    let same : p ≡ b = ground arith in
    let (more, e) = is_prefix-Begins ps bs (ground arith) in (more, ground arith)

strncmp_eq-is_prefix :
    (prefix text rest : List ℕ)
    → Without 0 prefix
    → strncmp_eq prefix (text ++ 0 ∷ rest) ≡ some (is_prefix prefix text)
unfolding strncmp_eq
strncmp_eq-is_prefix [] text rest z = refl
strncmp_eq-is_prefix (p ∷ ps) [] rest z = ground arith
strncmp_eq-is_prefix (p ∷ ps) (b ∷ bs) rest z = ground (arith, strncmp_eq-is_prefix ps bs rest z.1)

or_true : (a b c : Bool) → ((a || (b || c)) ≡ true) → (a ≡ true) ⊎ ((b ≡ true) ⊎ (c ≡ true))
or_true true b c h = inl refl
or_true false true c h = inr (inl refl)
or_true false false c h = inr (inr h)

Begins-is_prefix : (prefix text : List ℕ) → Begins prefix text → is_prefix prefix text ≡ true
Begins-is_prefix prefix text (more, e) = ap (is_prefix prefix) e ∙ is_prefix-append prefix more

true_or : (a b c : Bool) → (a ≡ true) ⊎ ((b ≡ true) ⊎ (c ≡ true)) → (a || (b || c)) ≡ true
true_or a b c h = ground arith

-- The comparison of a text before a closing zero reads nothing behind it, and answers whether the text
-- begins with one of the three default requests.
pub is_default_requests-Begins :
    (text rest : List ℕ)
    → (b : Bool) × (is_default_requests (text ++ 0 ∷ rest) ≡ some b)
      × ((b ≡ true) ↔ (
          Begins default_request_one text
          ⊎ (Begins default_request_two text ⊎ Begins default_request_three text)))
unfolding is_default_requests
is_default_requests-Begins text rest = (
  one || (two || three),
  rw
      (
        strncmp_eq-is_prefix default_request_one text rest (ground arith),
        strncmp_eq-is_prefix default_request_two text rest (ground arith),
        strncmp_eq-is_prefix default_request_three text rest (ground arith),
      )
      refl,
  (
    (λ h. elim (or_true one two three h) [
      | inl e ↦ inl (is_prefix-Begins default_request_one text e)
      | inr (inl e) ↦ inr (inl (is_prefix-Begins default_request_two text e))
      | inr (inr e) ↦ inr (inr (is_prefix-Begins default_request_three text e))
    ]),
    (λ h. elim h [
      | inl e ↦ true_or one two three (inl (Begins-is_prefix default_request_one text e))
      | inr (inl e) ↦
          true_or one two three (inr (inl (Begins-is_prefix default_request_two text e)))
      | inr (inr e) ↦
          true_or one two three (inr (inr (Begins-is_prefix default_request_three text e)))
    ]),
  ),
)
  where
    one : Bool
    one = is_prefix default_request_one text

    two : Bool
    two = is_prefix default_request_two text

    three : Bool
    three = is_prefix default_request_three text
