-- ===== src/Security/Jwt/Times.antt =====
-- security/auth/jwt/jwt.go: what the time claims of a token have to satisfy, claim by claim.
use forge_go.Prelude.{
  ℕ, ◌≡◌, ◌≤◌, ◌↔◌, ◌⊎◌, inl, inr, refl, arith, Bool-cases, Option-cases, true, false, Bytes, [],
  ◌∷◌, Option, none, some,
}
use forge_go.Prelude.Utf8.Trim.{trim_space}
use forge_go.Security.Jwt.Strategy.{
  JwtError, accepted, invalid_expiration_claim, invalid_not_before_claim,
}
use forge_go.Security.Jwt.Service.{Float64, Service}
use forge_go.Security.Jwt.Tokens.{
  Platform, starts_number, numeric_value, numeric_date_claim, reading, is_expired, is_early,
  validate_times, is_object, validate_registered_time_claims,
}
use forge_go.Security.Jwt.Accepted.{Answer-cases}

abbrev StartsNumber : Bytes → Type 0
StartsNumber [] = ⊥
StartsNumber (c ∷ _) = (c ≡ b'-') ⊎ ((b'0' ≤ c) × (c ≤ b'9'))

-- The text of a claim is empty, or that of a finite number.
abbrev pub Reads : Platform → Bytes → Option Float64 → Type 0
Reads p text none = text ≡ []
Reads p text (some x) =
    StartsNumber text × (p.parse_float text ≡ some x) × (p.is_inf x ≡ false) × (p.is_nan x ≡ false)

-- The clock, with the leeway, is not past the expiration; it has reached the other time.
abbrev pub NotExpired : Platform → Service → Option Float64 → Type 0
NotExpired p service none = Unit
NotExpired p service (some x) =
    p.at_least (reading p service) (p.plus x (p.seconds service.leeway)) ≡ false

abbrev pub NotEarly : Platform → Service → Option Float64 → Type 0
NotEarly p service none = Unit
NotEarly p service (some x) =
    p.less (p.plus (reading p service) (p.seconds service.leeway)) x ≡ false

pub record InTime (p : Platform) (service : Service) (exp nbf : Bytes) : Type 0 where
  pub expiration : Option Float64
  pub not_before : Option Float64
  pub reads_expiration : Reads p (trim_space exp) expiration
  pub reads_not_before : Reads p (trim_space nbf) not_before
  pub not_expired : NotExpired p service expiration
  pub not_early : NotEarly p service not_before

-- The claims are JSON; when they are an object, its two times hold.
abbrev pub TimesHold : Platform → Service → Bytes → Type 0
TimesHold p service claims =
    (p.json_valid (trim_space claims) ≡ true)
    × (is_object (trim_space claims) ≡ true
        → (exp : Bytes) × (nbf : Bytes) × (p.times (trim_space claims) ≡ some (exp, nbf))
          × InTime p service exp nbf)

module _ (p : Platform) (problem : JwtError) where
  starts_number_iff : (c : ℕ) → (starts_number c ≡ true) ↔ ((c ≡ b'-') ⊎ ((b'0' ≤ c) × (c ≤ b'9')))
  unfolding starts_number
  starts_number_iff c = ground arith

  numeric_value-Reads :
      (text : Bytes) (o : Option Float64)
      → numeric_value p problem text ≡ accepted o
      → Reads p text o
  unfolding numeric_value
  numeric_value-Reads [] none h = refl
  numeric_value-Reads [] (some x) h = absurd (ground arith)
  numeric_value-Reads (c ∷ cs) o h = elim (Bool-cases (starts_number c)) [
    | inr e ↦ absurd (ground arith)
    | inl e ↦ elim (Option-cases (p.parse_float (c ∷ cs))) [
      | inl f ↦ absurd (ground arith)
      | inr (x, f) ↦ by_option o h x f ((starts_number_iff c).0 e)
    ]
  ]
    where
      by_option :
          (o : Option Float64)
          → numeric_value p problem (c ∷ cs) ≡ accepted o
          → (x : Float64) → p.parse_float (c ∷ cs) ≡ some x
          → (c ≡ b'-') ⊎ ((b'0' ≤ c) × (c ≤ b'9'))
          → Reads p (c ∷ cs) o
      by_option none h x f e = absurd (ground arith)
      by_option (some y) h x f e = (e, ground arith, ground arith, ground arith)

  Reads-numeric_value :
      (text : Bytes) (o : Option Float64)
      → Reads p text o
      → numeric_value p problem text ≡ accepted o
  unfolding numeric_value
  Reads-numeric_value text none h = rw h refl
  Reads-numeric_value [] (some x) (h, _, _, _) = absurd h
  Reads-numeric_value (c ∷ cs) (some x) (h, f, a, b) = rw ((starts_number_iff c).1 h, f, a, b) refl

module _ (p : Platform) (service : Service) where
  is_expired_iff : (o : Option Float64) → (is_expired p service o ≡ false) ↔ NotExpired p service o
  is_expired_iff none = ((λ h. tt), (λ h. refl))
  is_expired_iff (some x) = ((λ h. h), (λ h. h))

  is_early_iff : (o : Option Float64) → (is_early p service o ≡ false) ↔ NotEarly p service o
  is_early_iff none = ((λ h. tt), (λ h. refl))
  is_early_iff (some x) = ((λ h. h), (λ h. h))

  validate_times-InTime :
      (exp nbf : Bytes)
      → validate_times p service (some (exp, nbf)) ≡ accepted tt
      → InTime p service exp nbf
  unfolding validate_times numeric_date_claim
  validate_times-InTime exp nbf h =
      elim (Answer-cases (numeric_value p invalid_expiration_claim (trim_space exp))) [
        | inl (problem, e) ↦ absurd (ground arith)
        | inr (x, e) ↦
            elim (Answer-cases (numeric_value p invalid_not_before_claim (trim_space nbf))) [
              | inl (problem, f) ↦ absurd (ground arith)
              | inr (y, f) ↦ elim (Bool-cases (is_expired p service x)) [
                | inl late ↦ absurd (ground arith)
                | inr late ↦ elim (Bool-cases (is_early p service y)) [
                  | inl early ↦ absurd (ground arith)
                  | inr early ↦ record {
                    expiration = x;
                    not_before = y;
                    reads_expiration =
                        numeric_value-Reads p invalid_expiration_claim (trim_space exp) x e;
                    reads_not_before =
                        numeric_value-Reads p invalid_not_before_claim (trim_space nbf) y f;
                    not_expired = (is_expired_iff x).0 late;
                    not_early = (is_early_iff y).0 early;
                  }
                ]
              ]
            ]
      ]

  InTime-validate_times :
      (exp nbf : Bytes)
      → InTime p service exp nbf
      → validate_times p service (some (exp, nbf)) ≡ accepted tt
  unfolding validate_times numeric_date_claim
  InTime-validate_times exp nbf t =
      rw
        (
          Reads-numeric_value p invalid_expiration_claim _ t.expiration t.reads_expiration,
          Reads-numeric_value p invalid_not_before_claim _ t.not_before t.reads_not_before,
          (is_expired_iff t.expiration).1 t.not_expired,
          (is_early_iff t.not_before).1 t.not_early,
        )
        refl

  validate_registered_time_claims-TimesHold :
      (claims : Bytes)
      → validate_registered_time_claims p service claims ≡ accepted tt
      → TimesHold p service claims
  unfolding validate_registered_time_claims validate_times
  validate_registered_time_claims-TimesHold claims h =
      elim (Bool-cases (p.json_valid (trim_space claims))) [
        | inr e ↦ absurd (ground arith)
        | inl e ↦ (
          e,
          λ object. elim (Option-cases (p.times (trim_space claims))) [
            | inl f ↦ absurd (ground arith)
            | inr ((exp, nbf), f) ↦
                (exp, nbf, f, validate_times-InTime exp nbf (rw (e, object, f) at h))
          ],
        )
      ]

  TimesHold-validate_registered_time_claims :
      (claims : Bytes)
      → TimesHold p service claims
      → validate_registered_time_claims p service claims ≡ accepted tt
  unfolding validate_registered_time_claims
  TimesHold-validate_registered_time_claims claims (valid, times) =
      elim (Bool-cases (is_object (trim_space claims))) [
        | inr plain ↦ rw (valid, plain) refl
        | inl object ↦
            let (exp, nbf, f, t) = times object in
            rw (valid, object, f) (InTime-validate_times exp nbf t)
      ]

  pub validate_registered_time_claims_iff :
      (claims : Bytes)
      → (validate_registered_time_claims p service claims ≡ accepted tt)
        ↔ TimesHold p service claims
  validate_registered_time_claims_iff claims = (
    validate_registered_time_claims-TimesHold claims,
    TimesHold-validate_registered_time_claims claims,
  )
