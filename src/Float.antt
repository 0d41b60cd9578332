-- ===== src/Float.antt =====
-- The sums, differences and products of `float`s, as the C compiler rounds them: to the nearest
-- number of 24 significant bits, and to the even one of two that are equally near. In the unit of
-- an amount, 2^-149, every `float` is a natural number; the numbers below 2^24 are exact. The
-- range has no end here: what is beyond the largest `float` is not infinite.
use cs.Base.{
  ℕ, zero, suc, ◌+◌, ◌*◌, ◌/◌, ◌%◌, ◌≤◌, ◌<◌, ◌≡◌, refl, subst, ap, ◌∙◌, ltb→lt, ◌⊎◌, ◌^◌, inl, inr,
  arith, ltb, if◌then◌else◌, Bool-cases,
}
use native.Mathlib.Nat.{div-add-mod, mod-lt, pow-zero, pow-suc, div-lt_iff_lt-mul}

-- The distance of the numbers with 24 significant bits near `n`: the least power of two, from
-- `step` on, with `n < 2^24 * step`; `fuel` doublings at most.
unfoldable pub spacing : ℕ → ℕ → ℕ → ℕ
spacing zero n step = step
spacing (suc fuel) n step =
    let wider = spacing fuel n (2 * step) in if ltb n (16777216 * step) then step else wider

-- How many steps the multiple of `step` nearest to `n` has, the even one of two that are equally near.
unfoldable pub nearest : ℕ → ℕ → ℕ
nearest n step =
    let down = n / step in
    let rest = n % step in
    if ltb (2 * rest) step then down else if ltb step (2 * rest) then down + 1 else down + down % 2

-- A `float` is less than 2^277 units, so that 253 doublings are enough.
unfoldable pub rounded : ℕ → ℕ
rounded n = let step = spacing 254 n 1 in step * nearest n step

-- `a` is `b`, up to one part in 2^k of `b`.
abbrev pub Near : ℕ → ℕ → ℕ → Type 0
Near k a b = (a * 2 ^ k ≤ b * 2 ^ k + b) × (b * 2 ^ k ≤ a * 2 ^ k + b)

-- A step that is one, or small to `n`.
abbrev Fine : ℕ → ℕ → Type 0
Fine n step = (0 < step) × ((step ≡ 1) ⊎ (8388608 * step ≤ n))

spacing-Fine : (fuel n step : ℕ) → Fine n step → Fine n (spacing fuel n step)
unfolding spacing
spacing-Fine zero n step h = h
spacing-Fine (suc fuel) n step h = elim (Bool-cases (ltb n (16777216 * step))) [
  | inl e ↦ rw e h
  | inr e ↦ rw e (spacing-Fine fuel n (2 * step) (ground arith, inr (ground arith)))
]

-- A multiple of `step` that is at most half a step from `n`.
abbrev Half : ℕ → ℕ → ℕ → Type 0
Half n step m = (2 * m ≤ 2 * n + step) × (2 * n ≤ 2 * m + step)

one_more : (step q : ℕ) → step * (q + 1) ≡ step * q + step
one_more step q = grind arith

-- Half a step over a multiple, one goes down or up.
middle :
    (n step q rest c : ℕ)
    → c < 2
    → step * q + rest ≡ n
    → 2 * rest ≡ step
    → Half n step (step * (q + c))
middle n step q rest zero low whole half =
    let same : q + 0 ≡ q = omega arith in rw same (omega arith, omega arith)
middle n step q rest (suc zero) low whole half =
    let more = one_more step q in (omega arith, omega arith)
middle n step q rest (suc (suc c)) low whole half = absurd (omega arith)

nearest-Half : (n step : ℕ) → 0 < step → Half n step (step * nearest n step)
unfolding nearest
nearest-Half n step h =
    let whole = div-add-mod n step in
    let small = mod-lt n h in
    elim (Bool-cases (ltb (2 * (n % step)) step)) [
      | inl e ↦ let low : 2 * (n % step) < step = ground arith in rw e (omega arith, omega arith)
      | inr e ↦ elim (Bool-cases (ltb step (2 * (n % step)))) [
        | inl f ↦
            let high : step < 2 * (n % step) = ground arith in
            let more = one_more step (n / step) in rw (e, f) (omega arith, omega arith)
        | inr f ↦
            rw (e, f)
              (middle n step (n / step) (n % step) (n / step % 2) (omega arith) whole
                (ground arith))
      ]
    ]

pub rounded-Near : (n : ℕ) → Near 24 (rounded n) n
unfolding rounded
rounded-Near n =
    let (positive, fine) = spacing-Fine 254 n 1 (omega arith, inl refl) in
    let (above, below) = nearest-Half n (spacing 254 n 1) positive in
    elim fine [ inl one ↦ (omega arith, omega arith) | inr small ↦ (omega arith, omega arith) ]

next_power : (step power : ℕ) → step * (power * 2) ≡ 2 * step * power
next_power step power = grind arith

-- A power of two that is large enough is reached in `fuel` doublings.
spacing-enough :
    (fuel n step : ℕ) → n < 16777216 * (step * 2 ^ fuel) → n < 16777216 * spacing fuel n step
unfolding spacing
spacing-enough zero n step h =
    let one = pow-zero 2 in
    let same : step * 2 ^ 0 ≡ step = rw one (grind arith) in subst (λ k. n < 16777216 * k) same h
spacing-enough (suc fuel) n step h = elim (Bool-cases (ltb n (16777216 * step))) [
  | inl e ↦ rw e (ltb→lt n (16777216 * step) e)
  | inr e ↦
      let next = ap (λ p. step * p) (pow-suc 2 fuel) ∙ next_power step (2 ^ fuel) in
      rw e (spacing-enough fuel n (2 * step) (subst (λ k. n < 16777216 * k) next h))
]

nearest-fits : (n step : ℕ) → 0 < step → n < step * 16777216 → nearest n step ≤ 16777216
unfolding nearest
nearest-fits n step h few =
    let whole = div-add-mod n step in
    let below : n / step < 16777216 = (div-lt_iff_lt-mul h).1 (omega arith) in ground arith

-- What is rounded, below the first power of two that is no `float`, has at most 24 significant bits:
-- it is at most 2^24 steps of a power of two.
pub rounded-fits :
    (n : ℕ)
    → n < 2 ^ 278
    → (step : ℕ) × ((steps : ℕ) × ((rounded n ≡ step * steps) × (steps ≤ 16777216)))
unfolding rounded
rounded-fits n h =
    let step = spacing 254 n 1 in
    let enough = spacing-enough 254 n 1 (omega arith) in
    let (positive, _) = spacing-Fine 254 n 1 (omega arith, inl refl) in
    (step, (nearest n step, (refl, nearest-fits n step positive (omega arith))))
