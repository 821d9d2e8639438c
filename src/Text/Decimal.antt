-- ===== src/Text/Decimal.antt =====
-- `str` of a number that is not negative, and that it can be read back.
use Prim.Native.Nat.{◌/◌, ◌%◌}
use limulus.Prelude.{
  ℕ, zero, suc, ◌+◌, ◌-◌, ◌*◌, ◌≤◌, ◌≡◌, refl, Bool, true, not, [], ◌∷◌, ◌++◌, arith, ltb, ◌==◌,
  if◌then◌else◌, all, Bool-cases, inl, inr,
}
use limulus.Text.{Text}

-- At most `fuel` digits before the last one.
unfoldable pub decimal_from : ℕ → ℕ → Text
decimal_from zero n = (48 + n % 10) ∷ []
decimal_from (suc fuel) n =
    let rest = decimal_from fuel (n / 10) in
    if ltb n 10 then (48 + n) ∷ [] else rest ++ (48 + n % 10) ∷ []

-- A number has no more digits than itself, or one.
unfoldable pub decimal : ℕ → Text
unfolding decimal_from
decimal n = decimal_from n n

abbrev pub read_decimal : Text → ℕ → ℕ
read_decimal [] n = n
read_decimal (c ∷ s) n = read_decimal s (n * 10 + (c - 48))

read_decimal-append :
    (s t : Text) (n : ℕ) → read_decimal (s ++ t) n ≡ read_decimal t (read_decimal s n)
read_decimal-append [] t n = refl
read_decimal-append (c ∷ s) t n = read_decimal-append s t (n * 10 + (c - 48))

read_decimal-decimal_from : (fuel n : ℕ) → n ≤ fuel → read_decimal (decimal_from fuel n) 0 ≡ n
unfolding decimal_from
read_decimal-decimal_from zero n h = omega arith
read_decimal-decimal_from (suc fuel) n h = elim (Bool-cases (ltb n 10)) [
  | inl small ↦ ground arith
  | inr large ↦
      rw
        (
          large,
          read_decimal-append (decimal_from fuel (n / 10)) ((48 + n % 10) ∷ []) 0,
          read_decimal-decimal_from fuel (n / 10) (ground arith),
        )
        (omega arith)
]

pub read_decimal-decimal : (n : ℕ) → read_decimal (decimal n) 0 ≡ n
unfolding decimal
read_decimal-decimal n = read_decimal-decimal_from n n (omega arith)

-- No underscore.
abbrev pub is_plain : Text → Bool
is_plain s = all (λ c. not (c == 95)) s

is_plain-append : (s t : Text) → is_plain s ≡ true → is_plain t ≡ true → is_plain (s ++ t) ≡ true
is_plain-append [] t h g = g
is_plain-append (c ∷ s) t h g = ground (arith, is_plain-append s t)

is_plain-decimal_from : (fuel n : ℕ) → is_plain (decimal_from fuel n) ≡ true
unfolding decimal_from
is_plain-decimal_from zero n = ground arith
is_plain-decimal_from (suc fuel) n = elim (Bool-cases (ltb n 10)) [
  | inl small ↦ ground arith
  | inr large ↦ rw large (
      is_plain-append (decimal_from fuel (n / 10)) ((48 + n % 10) ∷ [])
        (is_plain-decimal_from fuel (n / 10)) (ground arith))
]

pub is_plain-decimal : (n : ℕ) → is_plain (decimal n) ≡ true
unfolding decimal
is_plain-decimal n = is_plain-decimal_from n n
