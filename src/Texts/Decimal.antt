-- ===== src/Texts/Decimal.antt =====
-- A number can be read back from its digits, which are followed by something else.
use fanotify_fid.Base.{
  ℕ, zero, suc, ◌+◌, ◌-◌, ◌*◌, ◌/◌, ◌%◌, ◌<◌, ◌≤◌, ◌≡◌, refl, ap, ◌∙◌, [], ◌∷◌, ◌++◌, ltb,
  Bool-cases, inl, inr, if◌then◌else◌, ◌==◌, arith, All, All-append_one,
}
use fanotify_fid.Texts.{Text, digits, decimal}

unfoldable pub value : ℕ → Text → ℕ
value acc [] = acc
value acc (d ∷ ds) = value (10 * acc + (d - 48)) ds

value-append :
    (acc : ℕ) (ds : Text) (d : ℕ) → value acc (ds ++ d ∷ []) ≡ 10 * value acc ds + (d - 48)
unfolding value
value-append acc [] d = refl
value-append acc (e ∷ ds) d = value-append (10 * acc + (e - 48)) ds d

value-digits : (fuel n : ℕ) → n < fuel → value 0 (digits fuel n) ≡ n
unfolding digits
value-digits zero n h = absurd (omega arith)
value-digits (suc fuel) n h = elim (Bool-cases (ltb n 10)) [
  | inl small ↦ rw small (unfold value in omega arith)
  | inr large ↦ rw large (
      value-append 0 (digits fuel (n / 10)) (48 + n % 10)
      ∙ (let rest = value-digits fuel (n / 10) (ground (arith, large)) in omega (arith, rest)))
]

-- What stands in front of the first `stop`.
unfoldable pub until : ℕ → Text → Text
until stop [] = []
until stop (c ∷ cs) = let rest = until stop cs in if c == stop then [] else c ∷ rest

unfoldable pub AreDigits : Text → Type 0
AreDigits = All (λ d. (48 ≤ d) × (d < 58))

digits-AreDigits : (fuel n : ℕ) → AreDigits (digits fuel n)
unfolding digits AreDigits
digits-AreDigits zero n = tt
digits-AreDigits (suc fuel) n = elim (Bool-cases (ltb n 10)) [
  | inl small ↦ rw small (ground (arith, small))
  | inr large ↦ rw large (
      All-append_one (λ d. (48 ≤ d) × (d < 58)) (digits fuel (n / 10)) (48 + n % 10)
        (digits-AreDigits fuel (n / 10)) (omega arith))
]

until-digits :
    (stop : ℕ) (ds rest : Text) → AreDigits ds → stop < 48 → until stop (ds ++ stop ∷ rest) ≡ ds
unfolding until AreDigits
until-digits stop [] rest h low = ground arith
until-digits stop (d ∷ ds) rest h low =
    let t = until-digits stop ds rest h.1 low in ground (arith, t, h.0)

-- The number in front of a character that is no digit.
pub value-until-decimal :
    (stop n : ℕ) (rest : Text) → stop < 48 → value 0 (until stop (decimal n ++ stop ∷ rest)) ≡ n
unfolding decimal
value-until-decimal stop n rest low =
    ap (value 0) (until-digits stop (digits (n + 1) n) rest (digits-AreDigits (n + 1) n) low)
    ∙ value-digits (n + 1) n (omega arith)
