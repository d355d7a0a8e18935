-- ===== src/Status/Uptime.antt =====
-- serial_console/system_status.c: the uptime that is printed.
use pico_common.Common.{
  ℕ, Bool, true, false, ◌+◌, ◌*◌, ◌/◌, ◌%◌, ◌^◌, ◌<◌, ◌≡◌, refl, ap, ◌∙◌, if◌then◌else◌, List, [],
  ◌∷◌, ◌++◌, arith, length, inl, inr, ltb, Bool-cases,
}
use pico_common.Http.Text.{codes, digits, print_d}
use pico_common.Http.Text.Numbers.{AreDigits, print_d-AreDigits, value_from, print_d-value}
use pico_common.Status.{Platform, two_digits, print_current_system_uptime}

padded-AreDigits : (b : Bool) (ds : List ℕ) → AreDigits ds → AreDigits (if b then b'0' ∷ ds else ds)
padded-AreDigits true ds d = (omega arith, omega arith, d)
padded-AreDigits false ds d = d

two_digits-AreDigits : (n : ℕ) → n < 100 → AreDigits (two_digits n)
unfolding two_digits
two_digits-AreDigits n h =
    padded-AreDigits (ltb n 10) (print_d n) (print_d-AreDigits n (omega arith))

two_digits-value : (n : ℕ) → n < 100 → value_from 0 (two_digits n) ≡ n
unfolding two_digits
two_digits-value n h = elim (Bool-cases (ltb n 10)) [
  | inl small ↦
      ap (λ b. value_from 0 (if b then b'0' ∷ print_d n else print_d n)) small
      ∙ print_d-value n (omega arith)
  | inr large ↦
      ap (λ b. value_from 0 (if b then b'0' ∷ print_d n else print_d n)) large
      ∙ print_d-value n (omega arith)
]

length-two_digits : (n : ℕ) → n < 100 → length (two_digits n) ≡ 2
unfolding two_digits print_d digits
length-two_digits n h = ground arith

-- The uptime that is printed for a time below 2 ^ 31 days: decimal digits for the days, and two decimal digits each
-- for the hours, below 24, the minutes and the seconds, below 60, which together are the time in seconds.
pub print_current_system_uptime-value :
    (p : Platform)
    → p.time < 86400 * 2 ^ 31
    → (days : List ℕ) × (hours : List ℕ) × (minutes : List ℕ) × (seconds : List ℕ)
      × (print_current_system_uptime p
          ≡ (codes "Uptime: "
              ++ (days
                  ++ (codes " days, "
                      ++ (hours ++ (b':' ∷ (minutes ++ (b':' ∷ (seconds ++ codes "\n"))))))))
            ∷ [])
      × AreDigits days
      × AreDigits hours
      × AreDigits minutes
      × AreDigits seconds
      × (length hours ≡ 2)
      × (length minutes ≡ 2)
      × (length seconds ≡ 2)
      × (value_from 0 hours < 24)
      × (value_from 0 minutes < 60)
      × (value_from 0 seconds < 60)
      × (((value_from 0 days * 24 + value_from 0 hours) * 60 + value_from 0 minutes) * 60
            + value_from 0 seconds
          ≡ p.time)
unfolding print_current_system_uptime
print_current_system_uptime-value p early = (
  print_d days,
  two_digits hours,
  two_digits minutes,
  two_digits seconds,
  refl,
  print_d-AreDigits days (omega arith),
  two_digits-AreDigits hours (omega arith),
  two_digits-AreDigits minutes (omega arith),
  two_digits-AreDigits seconds (omega arith),
  length-two_digits hours (omega arith),
  length-two_digits minutes (omega arith),
  length-two_digits seconds (omega arith),
  omega (arith, two_digits-value hours (omega arith)),
  omega (arith, two_digits-value minutes (omega arith)),
  omega (arith, two_digits-value seconds (omega arith)),
  ap
        (λ d.
          ((d * 24 + value_from 0 (two_digits hours)) * 60 + value_from 0 (two_digits minutes)) * 60
          + value_from 0 (two_digits seconds))
        (print_d-value days (omega arith))
      ∙ (ap
            (λ h.
              ((days * 24 + h) * 60 + value_from 0 (two_digits minutes)) * 60
              + value_from 0 (two_digits seconds))
            (two_digits-value hours (omega arith))
          ∙ (ap (λ m. ((days * 24 + hours) * 60 + m) * 60 + value_from 0 (two_digits seconds))
                (two_digits-value minutes (omega arith))
              ∙ (ap (λ k. ((days * 24 + hours) * 60 + minutes) * 60 + k)
                    (two_digits-value seconds (omega arith))
                  ∙ omega arith))),
)
  where
    days : ℕ
    days = p.time / 86400 % 2 ^ 32

    hours : ℕ
    hours = p.time / 3600 % 24

    minutes : ℕ
    minutes = p.time / 60 % 60

    seconds : ℕ
    seconds = p.time % 60
