-- ===== src/Dns/Process/Checks.antt =====
-- ap_website/dnsserver/dnsserver.c: the tests that `dns_server_process` makes of a query's header.
use native.Mathlib.Decide.{dec_lt, ℕ_discrete}
use pico_common.Common.{
  ℕ, ◌+◌, ◌-◌, ◌*◌, ◌/◌, ◌%◌, ◌^◌, ◌≤◌, ◌<◌, ◌≡◌, ◌≢◌, refl, List, Bool, true, false, some, arith,
  ◌==◌, if◌then◌else◌, ◌⊎◌, inl, inr, length, get_elem?, get_elem?-of-lt, le→ltb_false, lt→ltb,
}
use pico_common.Dns.Walk.Labels.{walk_ends}
use pico_common.Dns.Socket.{Server}
use pico_common.Dns.Process.Header.{answered_message, write_answer_lem}
use pico_common.Dns.Process.{
  Flow, ignore, next, access, load_be16, answer_question, answer_message, max_dns_msg_size,
  header_size,
}

-- A query as the handler takes it: no response, opcode 0, at least one question.
pub record IsQuery (msg : List ℕ) : Type 0 where
  pub flags_hi : ℕ
  pub flags_lo : ℕ
  pub count_hi : ℕ
  pub count_lo : ℕ
  pub flags_hi_at : get_elem? msg 2 ≡ some flags_hi
  pub flags_lo_at : get_elem? msg 3 ≡ some flags_lo
  pub count_hi_at : get_elem? msg 4 ≡ some count_hi
  pub count_lo_at : get_elem? msg 5 ≡ some count_lo
  pub no_response : (flags_hi * 2 ^ 8 + flags_lo) / 2 ^ 15 % 2 ≡ 0
  pub standard : (flags_hi * 2 ^ 8 + flags_lo) / 2 ^ 11 % 2 ^ 4 ≡ 0
  pub counted : 1 ≤ count_hi * 2 ^ 8 + count_lo

-- An answer written from `ptr` on, which leaves room in the array.
abbrev pub IsAnswer : Server → List ℕ → Flow (List ℕ × ℕ) → Type 0
IsAnswer d msg f =
    (ptr : ℕ) × (header_size + 4 ≤ ptr)
    × (ptr ≤ 271)
    × (f ≡ next (answered_message d msg ptr, ptr + 16))

pub plus_sixteen : (n : ℕ) → n + 20 ≡ n + 4 + 16
plus_sixteen n = omega arith

pub answer_question-total :
    (d : Server) (msg : List ℕ) (msg_len : ℕ)
    → length msg ≡ max_dns_msg_size
    → msg_len ≤ max_dns_msg_size
    → (answer_question d msg msg_len ≡ ignore) ⊎ IsAnswer d msg (answer_question d msg msg_len)
unfolding answer_question
answer_question-total d msg msg_len whole fits =
    elim (walk_ends max_dns_msg_size msg msg_len header_size (omega arith) (omega arith)
      (omega arith)) [
        | inr bad ↦ inl (rw bad)
        | inl (end, lo, w) ↦ elim (dec_lt 255 (end - header_size)) [
          | yes long ↦ inl (rw (w, lt→ltb _ _ long))
          | no short ↦ inr (
            end + 4,
            omega arith,
            omega arith,
            rw (
              w,
              le→ltb_false 255 (end - header_size) (omega arith),
              write_answer_lem d msg (end + 4) (omega arith) (omega arith),
              plus_sixteen end,
            ),
          )
        ]
      ]

pub load_be16_lem :
    (msg : List ℕ) (i hi lo : ℕ)
    → get_elem? msg i ≡ some hi
    → get_elem? msg (i + 1) ≡ some lo
    → load_be16 msg i ≡ next (hi * 2 ^ 8 + lo)
unfolding load_be16
load_be16_lem msg i hi lo e e' = rw (e, access, e')

==-of-eq : (a b : ℕ) → a ≡ b → (a == b) ≡ true
==-of-eq a b h = ground arith

==-of-ne : (a b : ℕ) → a ≢ b → (a == b) ≡ false
==-of-ne a b h = ground arith

pub if-same {ℓ} : {A : Type ℓ} (b : Bool) {x : A} → (if b then x else x) ≡ x
if-same true = refl
if-same false = refl

pub if-same₂ {ℓ} : {A : Type ℓ} (b c : Bool) {x : A} → (if b then (if c then x else x) else x) ≡ x
if-same₂ true c = if-same c
if-same₂ false c = refl

-- The tests on the header, its bytes being known.
module _ (d : Server) (msg : List ℕ) (msg_len f₁ f₀ c₁ c₀ : ℕ) (e₁ : get_elem? msg 2 ≡ some f₁)
    (e₀ : get_elem? msg 3 ≡ some f₀) (e₃ : get_elem? msg 4 ≡ some c₁)
    (e₂ : get_elem? msg 5 ≡ some c₀) where
  pub answer_message-query :
      (f₁ * 2 ^ 8 + f₀) / 2 ^ 15 % 2 ≡ 0
      → (f₁ * 2 ^ 8 + f₀) / 2 ^ 11 % 2 ^ 4 ≡ 0
      → 1 ≤ c₁ * 2 ^ 8 + c₀
      → answer_message d msg msg_len ≡ answer_question d msg msg_len
  unfolding answer_message
  answer_message-query query standard counted = rw (
    load_be16_lem msg 2 f₁ f₀ e₁ e₀,
    load_be16_lem msg 4 c₁ c₀ e₃ e₂,
    query,
    standard,
    le→ltb_false (c₁ * 2 ^ 8 + c₀) 1 counted,
  )

  -- Anything else is dropped.
  pub answer_message-other :
      ((f₁ * 2 ^ 8 + f₀) / 2 ^ 15 % 2 ≢ 0)
        ⊎ (((f₁ * 2 ^ 8 + f₀) / 2 ^ 11 % 2 ^ 4 ≢ 0) ⊎ (c₁ * 2 ^ 8 + c₀ < 1))
      → answer_message d msg msg_len ≡ ignore
  unfolding answer_message
  answer_message-other (inl response) =
      rw (load_be16_lem msg 2 f₁ f₀ e₁ e₀, load_be16_lem msg 4 c₁ c₀ e₃ e₂, ==-of-ne _ 0 response)
  answer_message-other (inr (inl other)) =
      rw (load_be16_lem msg 2 f₁ f₀ e₁ e₀, load_be16_lem msg 4 c₁ c₀ e₃ e₂, ==-of-ne _ 0 other)
        (if-same _)
  answer_message-other (inr (inr none_asked)) =
      rw
        (
          load_be16_lem msg 2 f₁ f₀ e₁ e₀,
          load_be16_lem msg 4 c₁ c₀ e₃ e₂,
          lt→ltb (c₁ * 2 ^ 8 + c₀) 1 none_asked,
        )
        (if-same₂ _ _)

  answer_message-cases :
      length msg ≡ max_dns_msg_size
      → msg_len ≤ max_dns_msg_size
      → (answer_message d msg msg_len ≡ ignore)
        ⊎ (IsQuery msg × IsAnswer d msg (answer_message d msg msg_len))
  answer_message-cases whole fits = elim (ℕ_discrete ((f₁ * 2 ^ 8 + f₀) / 2 ^ 15 % 2) 0) [
    | no response ↦ inl (answer_message-other (inl response))
    | yes query ↦ elim (ℕ_discrete ((f₁ * 2 ^ 8 + f₀) / 2 ^ 11 % 2 ^ 4) 0) [
      | no other ↦ inl (answer_message-other (inr (inl other)))
      | yes standard ↦ elim (dec_lt (c₁ * 2 ^ 8 + c₀) 1) [
        | yes none_asked ↦ inl (answer_message-other (inr (inr none_asked)))
        | no some_asked ↦
            let counted : 1 ≤ c₁ * 2 ^ 8 + c₀ = omega arith in
            let asked : IsQuery msg = record {
              flags_hi = f₁;
              flags_lo = f₀;
              count_hi = c₁;
              count_lo = c₀;
              flags_hi_at = e₁;
              flags_lo_at = e₀;
              count_hi_at = e₃;
              count_lo_at = e₂;
              no_response = query;
              standard = standard;
              counted = counted;
            } in
            rw (answer_message-query query standard counted)
              (elim (answer_question-total d msg msg_len whole fits) [
                | inl drop ↦ inl drop
                | inr answer ↦ inr (asked, answer)
              ])
      ]
    ]
  ]

-- A message is dropped, or it is a query and answered.
pub answer_message-total :
    (d : Server) (msg : List ℕ) (msg_len : ℕ)
    → length msg ≡ max_dns_msg_size
    → msg_len ≤ max_dns_msg_size
    → (answer_message d msg msg_len ≡ ignore)
      ⊎ (IsQuery msg × IsAnswer d msg (answer_message d msg msg_len))
answer_message-total d msg msg_len whole fits =
    let (f₁, e₁) = get_elem?-of-lt msg 2 (omega arith) in
    let (f₀, e₀) = get_elem?-of-lt msg 3 (omega arith) in
    let (c₁, e₃) = get_elem?-of-lt msg 4 (omega arith) in
    let (c₀, e₂) = get_elem?-of-lt msg 5 (omega arith) in
    answer_message-cases d msg msg_len f₁ f₀ c₁ c₀ e₁ e₀ e₃ e₂ whole fits
