-- ===== src/Pact/Scores.antt =====
-- The bounds of scores and of the completeness.
use native.Mathlib.Nat.{
  one-le-pow, pow-suc, mul_comm, mul_assoc, mul-one, mul-le-mul_right, div-add-mod', mod-lt,
  add-mul, suc-mul, mul-suc,
}
use kelin_server.Prelude.{
  ℕ, zero, suc, ◌-◌, ◌^◌, ◌+◌, ◌*◌, ◌/◌, ◌%◌, ◌≤◌, ◌<◌, ◌≡◌, sym, ap, subst, ◌∙◌, Bool, List, [],
  ◌∷◌, length, inl, inr, Bool-cases, ltb, leb, ◌==◌, arith,
}
use kelin_server.Spirit.Marks.{Text}
use kelin_server.Pact.Score.{
  nearest_div, bit_length, float_bits, float_max_bits, round_div, next_completeness,
  score_answer_text, total_score, session_score,
}

-- The nearest integer of a quotient is within a half of it.
pub nearest_div_nearest :
    (a b : ℕ)
    → 0 < b
    → (2 * (nearest_div a b * b) ≤ 2 * a + b) × (2 * a ≤ 2 * (nearest_div a b * b) + b)
unfolding nearest_div
nearest_div_nearest a b h =
    let exact = div-add-mod' a b in
    let rest : a % b < b = mod-lt a h in
    let above : (a / b + 1) * b ≡ a / b * b + 1 * b = add-mul (a / b) 1 b in
    elim (Bool-cases (ltb (2 * (a % b)) b)) [
      | inl less ↦ rw less (ground (arith, exact))
      | inr most ↦ elim (Bool-cases (ltb b (2 * (a % b)))) [
        | inl more ↦ rw (most, more) (ground (arith, exact, rest, above))
        | inr half ↦ elim (Bool-cases (a / b % 2 == 0)) [
          | inl even ↦ rw (most, half, even) (ground (arith, exact))
          | inr odd ↦ rw (most, half, odd) (ground (arith, exact, above))
        ]
      ]
    ]

-- A product that is less than half a factor beyond another has no larger factor.
factor-le : (m n b : ℕ) → 2 * (m * b) ≤ 2 * (n * b) + b → 0 < b → m ≤ n
factor-le m n b close h = elim (Bool-cases (leb m n)) [
  | inl within ↦ ground arith
  | inr beyond ↦
      let far : suc n * b ≤ m * b = mul-le-mul_right b (ground arith) in
      absurd (omega (arith, far, suc-mul n b, close, h))
]

-- The nearest integer of a quotient stays between the integers that it stands between.
pub nearest_div_range :
    (a b low high : ℕ)
    → 0 < b
    → low * b ≤ a
    → a ≤ high * b
    → (low ≤ nearest_div a b) × (nearest_div a b ≤ high)
nearest_div_range a b low high h above below =
    let (least, most) = nearest_div_nearest a b h in
    let c = nearest_div a b in
    (
      factor-le low c b (omega (arith, above, most)) h,
      factor-le c high b (omega (arith, below, least)) h,
    )

-- A quotient is no larger than a bound of it.
div-below : (a b high : ℕ) → 0 < b → high < 2 ^ float_bits → a ≤ high * b → a / b < 2 ^ float_bits
div-below a b high h small below =
    let exact = div-add-mod' a b in
    let q : a / b ≤ high = factor-le (a / b) high b (omega (arith, exact, below)) h in
    omega (arith, q, small)

-- A number below a power of two has no more bits than its exponent.
bit_length-le : (fuel n e : ℕ) → n < 2 ^ e → bit_length fuel n ≤ e
unfolding bit_length
bit_length-le zero n e h = omega arith
bit_length-le (suc fuel) n zero h = ground (arith, h)
bit_length-le (suc fuel) n (suc e) h =
    let half : n / 2 < 2 ^ e = omega (arith, h) in ground (arith, bit_length-le fuel (n / 2) e half)

double : (n b : ℕ) → n / 2 < 2 ^ b → n < 2 ^ (1 + b)
double n b h =
    let step : 2 ^ suc b ≡ 2 ^ b * 2 = pow-suc 2 b in
    let same : suc b ≡ 1 + b = omega arith in
    let below : n < 2 ^ suc b = omega (arith, h, step) in subst (λ e. n < 2 ^ e) same below

-- The fuel is enough for a number of as many bits.
bit_length-covers : (fuel n : ℕ) → n < 2 ^ fuel → n < 2 ^ bit_length fuel n
unfolding bit_length
bit_length-covers zero n h = h
bit_length-covers (suc fuel) n h =
    let half : n / 2 < 2 ^ fuel = omega (arith, h) in
    let rest = bit_length-covers fuel (n / 2) half in
    elim (Bool-cases (n == 0)) [
      | inl none_left ↦ rw none_left (ground arith)
      | inr more ↦ rw more (double n (bit_length fuel (n / 2)) rest)
    ]

swap_factors : (m b n : ℕ) → m * b * n ≡ m * n * (b * 1)
swap_factors m b n =
    mul_assoc m b n
    ∙ ap (λ x. m * x) (mul_comm b n)
    ∙ sym (mul_assoc m n b)
    ∙ ap (λ x. m * n * x) (sym (mul-one b))

scaled : (low a b k : ℕ) → low * b ≤ a → low * 2 ^ k * (b * 1) ≤ a * 2 ^ k
scaled low a b k h =
    subst (λ x. x ≤ a * 2 ^ k) (swap_factors low b (2 ^ k)) (mul-le-mul_right (2 ^ k) h)

scaled-le : (high a b k : ℕ) → a ≤ high * b → a * 2 ^ k ≤ high * 2 ^ k * (b * 1)
scaled-le high a b k h =
    subst (λ x. a * 2 ^ k ≤ x) (swap_factors high b (2 ^ k)) (mul-le-mul_right (2 ^ k) h)

-- A float with `k` bits after the point, rounded.
rounded_range :
    (a b low high k : ℕ)
    → 0 < b
    → low * b ≤ a
    → a ≤ high * b
    → (low ≤ nearest_div (nearest_div (a * 2 ^ k) (b * 1)) (2 ^ k) * 1)
      × (nearest_div (nearest_div (a * 2 ^ k) (b * 1)) (2 ^ k) * 1 ≤ high)
rounded_range a b low high k h above below =
    let (least, most) =
      nearest_div_range (a * 2 ^ k) (b * 1) (low * 2 ^ k) (high * 2 ^ k) (omega (arith, h))
        (scaled low a b k above) (scaled-le high a b k below) in
    let (from, to) =
      nearest_div_range (nearest_div (a * 2 ^ k) (b * 1)) (2 ^ k) low high
        (one-le-pow k 2 (omega arith)) least most in
    (omega (arith, from), omega (arith, to))

-- The float of a quotient, rounded, stays between the integers that the quotient stands between, where
-- these are less than 2 ^ 53.
pub round_div_range :
    (a b low high : ℕ)
    → 0 < b
    → high < 2 ^ float_bits
    → low * b ≤ a
    → a ≤ high * b
    → (low ≤ round_div a b) × (round_div a b ≤ high)
unfolding round_div
round_div_range a b low high h small above below =
    let bits = bit_length float_max_bits (a / b) in
    let fits : bits ≤ float_bits =
      bit_length-le float_max_bits (a / b) float_bits (div-below a b high h small below) in
    let none_up : bits - float_bits ≡ 0 = omega (arith, fits) in
    rw (round_div, none_up) (rounded_range a b low high (float_bits - bits) h above below)

-- The completeness after a session stays between the completeness before it and the score of the
-- session, where the larger is less than 2 ^ 53: whatever bounds hold for these two hold for it.
pub next_completeness_range :
    (previous completed_before scored low high : ℕ)
    → low ≤ previous
    → previous ≤ high
    → low ≤ scored
    → scored ≤ high
    → high < 2 ^ float_bits
    → (low ≤ next_completeness previous completed_before scored)
      × (next_completeness previous completed_before scored ≤ high)
unfolding next_completeness
next_completeness_range previous n scored low high a b c d small =
    let below : low * n ≤ previous * n = mul-le-mul_right n a in
    let above : previous * n ≤ high * n = mul-le-mul_right n b in
    round_div_range (previous * n + scored) (n + 1) low high (omega arith) small
      (omega (arith, below, mul-suc low n, c)) (omega (arith, above, mul-suc high n, d))

module _ (is_digit : ℕ → Bool) where
  -- Every answer scores from 50 to 100.
  pub score_answer_text_range :
      (text : Text)
      → (50 ≤ score_answer_text is_digit text) × (score_answer_text is_digit text ≤ 100)
  unfolding score_answer_text
  score_answer_text_range text = omega arith

  total_score_range :
      (texts : List Text)
      → (50 * length texts ≤ total_score is_digit texts)
        × (total_score is_digit texts ≤ 100 * length texts)
  unfolding total_score
  total_score_range [] = omega arith
  total_score_range (text ∷ texts) =
      let (a, b) = score_answer_text_range text in
      let (c, d) = total_score_range texts in omega (arith, a, b, c, d)

  -- A session with an answer scores from 50 to 100, and no session more than 100.
  pub session_score_range :
      (texts : List Text)
      → (0 < length texts → 50 ≤ session_score is_digit texts)
        × (session_score is_digit texts ≤ 100)
  unfolding session_score
  session_score_range [] = (λ h. omega (arith, h), omega arith)
  session_score_range (text ∷ texts) =
      let (a, b) = total_score_range (text ∷ texts) in
      let (low, high) =
        round_div_range (total_score is_digit (text ∷ texts)) (length (text ∷ texts)) 50 100
          (omega arith) (omega arith) a b in
      (λ h. low, high)
