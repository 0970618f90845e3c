-- ===== src/Daraja/Phone/Agrees.antt =====
-- `NormalizePhone` of internal/daraja/webhook.go and `NormalisePhone` of internal/domain/payment.go.
use Prim.Native.Char.{code}
use mkwanja_payment_service.Prelude.{
  ℕ, String, ◌≡◌, refl, Bool, true, false, List, ◌∷◌, [], ◌&&◌, All, arith, codes, rest_of, ◌<>◌,
  inl, inr, Bool-cases, ap,
}
use mkwanja_payment_service.Prelude.Result.{ok, ok_inj}
use mkwanja_payment_service.Domain.Phone.{
  matches, is, is_digit, is_1_or_7, eight_digits, local_form, plus_form, phone_form, is_phone,
  normalise_phone,
}
use mkwanja_payment_service.Domain.Phone.Forms.{normal_form}
use mkwanja_payment_service.Daraja.Phone.{digits_of, begins_with_zero, normalize_phone}

abbrev are_digits : List ℕ → Bool
are_digits [] = true
are_digits (c ∷ cs) = is_digit c && are_digits cs

-- The classes of a pattern that takes digits only.
abbrev AreDigits : List (ℕ → Bool) → Type 0
AreDigits ps = All (λ p. (c : ℕ) → p c ≡ true → is_digit c ≡ true) ps

matches-are_digits :
    (ps : List (ℕ → Bool)) (cs : List ℕ)
    → AreDigits ps
    → matches ps cs ≡ true
    → are_digits cs ≡ true
matches-are_digits [] [] ds h = refl
matches-are_digits [] (c ∷ cs) ds h = ground (arith, h)
matches-are_digits (p ∷ ps) [] ds h = ground (arith, h)
matches-are_digits (p ∷ ps) (c ∷ cs) (d, ds) h = ground (arith, h, d c, matches-are_digits ps cs ds)

is-AreDigits : (a : ℕ) → is_digit a ≡ true → (c : ℕ) → is a c ≡ true → is_digit c ≡ true
is-AreDigits a h c e = ground (arith, h, e)

one_or_seven : (c : ℕ) → is_1_or_7 c ≡ true → is_digit c ≡ true
one_or_seven c e = ground (arith, e)

eight-AreDigits : AreDigits eight_digits
eight-AreDigits = (
  (λ c h. h),
  (
    (λ c h. h),
    ((λ c h. h), ((λ c h. h), ((λ c h. h), ((λ c h. h), ((λ c h. h), ((λ c h. h), tt)))))),
  ),
)

local-AreDigits : AreDigits local_form
local-AreDigits = (is-AreDigits b'0' refl, (one_or_seven, eight-AreDigits))

phone-AreDigits : AreDigits phone_form
phone-AreDigits = (
  is-AreDigits b'2' refl,
  (is-AreDigits b'5' refl, (is-AreDigits b'4' refl, (is-AreDigits b'7' refl, eight-AreDigits))),
)

normal-AreDigits : AreDigits normal_form
normal-AreDigits = (
  is-AreDigits b'2' refl,
  (is-AreDigits b'5' refl, (is-AreDigits b'4' refl, (one_or_seven, eight-AreDigits))),
)

local-zero : (cs : List ℕ) → matches local_form cs ≡ true → begins_with_zero cs ≡ true
local-zero [] h = ground (arith, h)
local-zero (c ∷ cs) h = ground (arith, h)

normal-zero : (cs : List ℕ) → matches normal_form cs ≡ true → begins_with_zero cs ≡ false
normal-zero [] h = refl
normal-zero (c ∷ cs) h = ground (arith, h)

phone-zero : (cs : List ℕ) → matches phone_form cs ≡ true → begins_with_zero cs ≡ false
phone-zero [] h = refl
phone-zero (c ∷ cs) h = ground (arith, h)

module _ (is_decimal : ℕ → Bool) (ascii : (c : ℕ) → is_digit c ≡ true → is_decimal c ≡ true)
    (no_plus : is_decimal b'+' ≡ false) where
  digits_of-same : (s : String) → are_digits (codes s) ≡ true → digits_of is_decimal s ≡ s
  unfolding digits_of
  digits_of-same String.[] h = refl
  digits_of-same (String.◌∷◌ c s) h =
      let here : is_decimal (code c) ≡ true = ascii (code c) (ground (arith, h)) in
      let there : digits_of is_decimal s ≡ s = digits_of-same s (ground (arith, h)) in
      rw here (ap (String.◌∷◌ c) there)

  digits_of-plus :
      (s : String)
      → matches plus_form (codes s) ≡ true
      → (digits_of is_decimal s ≡ rest_of s) × (begins_with_zero (codes (rest_of s)) ≡ false)
  unfolding digits_of
  digits_of-plus String.[] h = ground (arith, h)
  digits_of-plus (String.◌∷◌ c s) h =
      let plus : code c ≡ b'+' = ground (arith, h) in
      let rest : matches normal_form (codes s) ≡ true = ground (arith, h) in
      (
        rw (plus, no_plus)
            (digits_of-same s (matches-are_digits normal_form (codes s) normal-AreDigits rest)),
        normal-zero (codes s) rest,
      )

  -- A number that `NormalisePhone` of the domain accepts is brought to the same form by `NormalizePhone` of the
  -- Daraja package, for any test of digits that takes the ten ASCII digits and not the plus sign.
  pub normalise_phone-normalize_phone :
      (s t : String) → normalise_phone s ≡ ok t → normalize_phone is_decimal s ≡ t
  unfolding normalise_phone normalize_phone
  normalise_phone-normalize_phone s t e = elim (Bool-cases (matches local_form (codes s))) [
    | inl local ↦
        rw
          (
            digits_of-same s (matches-are_digits local_form (codes s) local-AreDigits local),
            local-zero (codes s) local,
          )
          (ok_inj ("254" <> rest_of s) t (rw local at e))
    | inr foreign ↦ elim (Bool-cases (matches plus_form (codes s))) [
      | inl plus ↦
          let (kept, nonzero) = digits_of-plus s plus in
          rw (kept, nonzero) (ok_inj (rest_of s) t (rw (foreign, plus) at e))
      | inr bare ↦ elim (Bool-cases (is_phone s)) [
        | inl phone ↦
            rw
              (
                digits_of-same s (matches-are_digits phone_form (codes s) phone-AreDigits phone),
                phone-zero (codes s) phone,
              )
              (ok_inj s t (rw (foreign, bare, phone) at e))
        | inr other ↦ ground (arith, foreign, bare, other, e)
      ]
    ]
  ]
