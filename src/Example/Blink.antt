-- ===== src/Example/Blink.antt =====
-- main.cpp and main_ap.cpp: the light that the main loop turns on and off, by a clock of 32 bits.
use pico_common.Common.{
  ℕ, ◌+◌, ◌-◌, ◌%◌, ◌^◌, ◌≤◌, ◌<◌, ◌≡◌, refl, sym, inl, inr, ◌∙◌, ap, List, [], ◌∷◌, ◌++◌, Bool,
  not, arith, leb, if◌then◌else◌, Bool-cases, leb_false→lt,
}

-- `prev_time` and `led_state`, and the states that the light was set to.
pub record Light : Type 0 where
  pub prev_time : ℕ
  pub led_state : Bool
  pub puts : List Bool

abbrev pub turned : Light → ℕ → Light
turned l time = record {
  prev_time = time;
  led_state = not l.led_state;
  puts = l.puts ++ l.led_state ∷ [];
}

-- A round of the loop behind `serial_poll`, where the clock reads `current_time`.
unfoldable pub blink : Light → ℕ → Light
blink l current_time =
    let elapsed_time = (current_time + (2 ^ 32 - l.prev_time)) % 2 ^ 32 in
    if leb 1000 elapsed_time then turned l current_time else l

-- Rounds at these milliseconds since the start, which the clock shows mod 2 ^ 32.
abbrev pub rounds : Light → List ℕ → Light
rounds l [] = l
rounds l (t ∷ ts) = rounds (blink l (t % 2 ^ 32)) ts

-- A light that has a clock without bounds.
abbrev pub ideal : Light → ℕ → Light
ideal l t = if leb 1000 (t - l.prev_time) then turned l t else l

abbrev pub ideal_rounds : Light → List ℕ → Light
ideal_rounds l [] = l
ideal_rounds l (t ∷ ts) = ideal_rounds (ideal l t) ts

-- What a clock of 32 bits shows of it.
abbrev pub shown : Light → Light
shown l = record l { prev_time = l.prev_time % 2 ^ 32 }

-- Each round is no earlier than the one before, and less than 2 ^ 32 - 1000 milliseconds later.
abbrev pub Steady : ℕ → List ℕ → Type 0
Steady last [] = Unit {0}
Steady last (t ∷ ts) = (last ≤ t) × (t < last + (2 ^ 32 - 1000)) × Steady t ts

elapsed_lem :
    (t0 t : ℕ) → t0 ≤ t → t < t0 + 2 ^ 32 → (t % 2 ^ 32 + (2 ^ 32 - t0 % 2 ^ 32)) % 2 ^ 32 ≡ t - t0
elapsed_lem t0 t later soon = omega arith

blink-shown :
    (l : Light) (t : ℕ)
    → l.prev_time ≤ t
    → t < l.prev_time + 2 ^ 32
    → blink (shown l) (t % 2 ^ 32) ≡ shown (ideal l t)
unfolding blink
blink-shown l t later soon = elim (Bool-cases (leb 1000 (t - l.prev_time))) [
  | inl due ↦ rw (elapsed_lem l.prev_time t later soon, due) refl
  | inr early ↦ rw (elapsed_lem l.prev_time t later soon, early) refl
]

-- Where each round follows the one before within 2 ^ 32 - 1000 milliseconds, and the first one follows a
-- time less than a second after the light was turned, the light is set as by a clock without bounds, also
-- where the clock wraps.
pub rounds-ideal :
    (times : List ℕ) (last : ℕ) (l : Light)
    → l.prev_time ≤ last
    → last < l.prev_time + 1000
    → Steady last times
    → rounds (shown l) times ≡ shown (ideal_rounds l times)
rounds-ideal [] last l since recent steady = refl
rounds-ideal (t ∷ ts) last l since recent steady =
    ap (λ k. rounds k ts) (blink-shown l t (omega (arith, steady.0)) (omega (arith, steady.1)))
    ∙ elim (Bool-cases (leb 1000 (t - l.prev_time))) [
      | inl due ↦
          let turns : ideal l t ≡ turned l t = rw due refl in
          ap (λ k. rounds (shown k) ts) turns
          ∙ (rounds-ideal ts t (turned l t) (omega arith) (omega arith) steady.2
              ∙ ap (λ k. shown (ideal_rounds k ts)) (sym turns))
      | inr early ↦
          let stays : ideal l t ≡ l = rw early refl in
          ap (λ k. rounds (shown k) ts) stays
          ∙ (rounds-ideal ts t l (omega (arith, steady.0))
                (omega (arith, steady.0, leb_false→lt 1000 (t - l.prev_time) early)) steady.2
              ∙ ap (λ k. shown (ideal_rounds k ts)) (sym stays))
    ]
