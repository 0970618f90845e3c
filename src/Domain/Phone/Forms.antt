-- ===== src/Domain/Phone/Forms.antt =====
-- What `NormalisePhone` of internal/domain/payment.go accepts, and what it makes of it.
use text.Mathlib.TextLemmas.{nil-append, cons-append}
use mkwanja_payment_service.Prelude.{
  ℕ, String, ◌≡◌, refl, Bool, true, false, List, [], ◌∷◌, ◌⊎◌, inl, inr, arith, Bool-cases, codes,
  rest_of, drop, ◌<>◌,
}
use mkwanja_payment_service.Prelude.Result.{ok, succeeds, ok_inj}
use mkwanja_payment_service.Domain.Phone.{
  matches, is, is_1_or_7, eight_digits, local_form, plus_form, phone_form, is_phone,
  normalise_phone,
}

-- `^254[17]\d{8}$`
abbrev pub normal_form : List (ℕ → Bool)
normal_form = is b'2' ∷ is b'5' ∷ is b'4' ∷ is_1_or_7 ∷ eight_digits

codes-prefix : (s : String) → codes ("254" <> s) ≡ b'2' ∷ b'5' ∷ b'4' ∷ codes s
codes-prefix s = rw (cons-append, cons-append, cons-append, nil-append)

-- A number in local form, without its 0, and one in international form, without its +.
local-tail :
    (cs : List ℕ)
    → matches local_form cs ≡ true
    → (matches normal_form (b'2' ∷ b'5' ∷ b'4' ∷ drop 1 cs) ≡ true)
local-tail [] h = ground arith
local-tail (c ∷ cs) h = ground arith

plus-tail : (cs : List ℕ) → matches plus_form cs ≡ true → matches normal_form (drop 1 cs) ≡ true
plus-tail [] h = ground arith
plus-tail (c ∷ cs) h = ground arith

phone-normal : (cs : List ℕ) → matches phone_form cs ≡ true → matches normal_form cs ≡ true
phone-normal [] h = ground arith
phone-normal (c ∷ cs) h = ground arith

codes-rest : (s : String) → codes (rest_of s) ≡ drop 1 (codes s)
codes-rest String.[] = refl
codes-rest (String.◌∷◌ d s) = refl

pub normalise_phone-normal :
    (s t : String) → normalise_phone s ≡ ok t → matches normal_form (codes t) ≡ true
unfolding normalise_phone
normalise_phone-normal s t e = elim (Bool-cases (matches local_form (codes s))) [
  | inl local ↦
      rw (← ok_inj ("254" <> rest_of s) t (rw local at e), codes-prefix (rest_of s), codes-rest s)
        (local-tail (codes s) local)
  | inr foreign ↦ elim (Bool-cases (matches plus_form (codes s))) [
    | inl plus ↦
        rw (← ok_inj (rest_of s) t (rw (foreign, plus) at e), codes-rest s)
          (plus-tail (codes s) plus)
    | inr bare ↦ elim (Bool-cases (is_phone s)) [
      | inl phone ↦
          rw (← ok_inj s t (rw (foreign, bare, phone) at e)) (phone-normal (codes s) phone)
      | inr other ↦ ground (arith, foreign, bare, other, e)
    ]
  ]
]

-- A normal number is in neither of the two forms that are changed.
normal-not_local : (cs : List ℕ) → matches normal_form cs ≡ true → matches local_form cs ≡ false
normal-not_local [] h = ground arith
normal-not_local (c ∷ cs) h = ground arith

normal-not_plus : (cs : List ℕ) → matches normal_form cs ≡ true → matches plus_form cs ≡ false
normal-not_plus [] h = ground arith
normal-not_plus (c ∷ cs) h = ground arith

-- `^2547\d{8}$` and `^2541\d{8}$`
abbrev pub form_7 : List (ℕ → Bool)
form_7 = is b'2' ∷ is b'5' ∷ is b'4' ∷ is b'7' ∷ eight_digits

abbrev pub form_1 : List (ℕ → Bool)
form_1 = is b'2' ∷ is b'5' ∷ is b'4' ∷ is b'1' ∷ eight_digits

normal-split :
    (cs : List ℕ)
    → matches normal_form cs ≡ true
    → (matches form_7 cs ≡ true) ⊎ ((matches form_1 cs ≡ true) × (matches phone_form cs ≡ false))
normal-split [] h = ground arith
normal-split (c ∷ cs) h = ground (arith, h)

-- A number that `NormalisePhone` returned is 2547 or 2541 and eight digits. In the first case it is returned
-- as it is when it is normalised again, in the second it is refused.
pub normalise_phone-again :
    (s t : String)
    → normalise_phone s ≡ ok t
    → ((matches form_7 (codes t) ≡ true) × (normalise_phone t ≡ ok t))
      ⊎ ((matches form_1 (codes t) ≡ true) × (succeeds (normalise_phone t) ≡ false))
unfolding normalise_phone
normalise_phone-again s t e =
    let normal = normalise_phone-normal s t e in
    let not_local = normal-not_local (codes t) normal in
    let not_plus = normal-not_plus (codes t) normal in
    elim (normal-split (codes t) normal) [
      | inl phone ↦ inl (phone, simp (not_local, not_plus, phone))
      | inr (other, refused) ↦ inr (other, simp (not_local, not_plus, refused))
    ]
