-- ===== src/Security/Jwt/Split.antt =====
-- The segments of a token of security/auth/jwt/jwt.go, and the token that they make.
use forge_go.Prelude.{
  ℕ, ◌≡◌, ◌≢◌, refl, sym, ◌∙◌, ap, inl, inr, arith, ◌==◌, ==_iff, List, [], ◌∷◌, Bytes, Bool-cases,
  All,
}
use forge_go.Security.Jwt.Segment.{IsSolid}
use forge_go.Security.Jwt.Accepted.{NoDot}
use forge_go.Security.Jwt.Tokens.{joined, split_dots, cons_first}

join_dots : List Bytes → Bytes
join_dots [] = []
join_dots (part ∷ []) = part
join_dots (part ∷ next ∷ parts) = joined part (join_dots (next ∷ parts))

abbrev HasPart : List Bytes → Type 0
HasPart [] = ⊥
HasPart (_ ∷ _) = Unit

cons_first-HasPart : (c : ℕ) (parts : List Bytes) → HasPart (cons_first c parts)
unfolding cons_first
cons_first-HasPart c [] = tt
cons_first-HasPart c (part ∷ parts) = tt

split_dots-HasPart : (s : Bytes) → HasPart (split_dots s)
unfolding split_dots
split_dots-HasPart [] = tt
split_dots-HasPart (c ∷ cs) = ground (arith, cons_first-HasPart c (split_dots cs))

join_dots-cons_first :
    (c : ℕ) (parts : List Bytes)
    → HasPart parts
    → join_dots (cons_first c parts) ≡ c ∷ join_dots parts
unfolding join_dots cons_first
join_dots-cons_first c [] has = elim has [ ]
join_dots-cons_first c (part ∷ []) has = refl
join_dots-cons_first c (part ∷ next ∷ parts) has = refl

join_dots_empty :
    (parts : List Bytes) → HasPart parts → join_dots ([] ∷ parts) ≡ b'.' ∷ join_dots parts
unfolding join_dots
join_dots_empty [] has = elim has [ ]
join_dots_empty (part ∷ parts) has = refl

join_dots-split_dots : (s : Bytes) → join_dots (split_dots s) ≡ s
unfolding split_dots join_dots
join_dots-split_dots [] = refl
join_dots-split_dots (c ∷ cs) =
    let has = split_dots-HasPart cs in
    elim (Bool-cases (c == b'.')) [
      | inl dot ↦ rw dot (
          join_dots_empty (split_dots cs) has
          ∙ rw ((==_iff c b'.').0 dot, join_dots-split_dots cs) refl)
      | inr other ↦
          rw other
            (join_dots-cons_first c (split_dots cs) has ∙ ap (◌∷◌ c) (join_dots-split_dots cs))
    ]

split_dots_single : (s : Bytes) → NoDot s → split_dots s ≡ s ∷ []
unfolding split_dots cons_first
split_dots_single [] solid = refl
split_dots_single (c ∷ cs) solid = ground (arith, split_dots_single cs solid.1)

split_dots-joined : (s t : Bytes) → NoDot s → split_dots (joined s t) ≡ s ∷ split_dots t
unfolding split_dots cons_first
split_dots-joined [] t solid = refl
split_dots-joined (c ∷ cs) t solid = ground (arith, split_dots-joined cs t solid.1)

joined_assoc : (s t u : Bytes) → joined (joined s t) u ≡ joined s (joined t u)
joined_assoc [] t u = refl
joined_assoc (c ∷ s) t u = ap (◌∷◌ c) (joined_assoc s t u)

pub split_dots_three :
    (s t u : Bytes)
    → NoDot s
    → NoDot t
    → NoDot u
    → split_dots (joined (joined s t) u) ≡ s ∷ t ∷ u ∷ []
split_dots_three s t u hs ht hu =
    ap split_dots (joined_assoc s t u)
    ∙ split_dots-joined s (joined t u) hs
    ∙ ap (◌∷◌ s) (split_dots-joined t u ht ∙ ap (◌∷◌ t) (split_dots_single u hu))

pub split_dots_inverse :
    (token s t u : Bytes) → split_dots token ≡ s ∷ t ∷ u ∷ [] → token ≡ joined (joined s t) u
unfolding join_dots
split_dots_inverse token s t u e =
    sym (join_dots-split_dots token) ∙ ap join_dots e ∙ sym (joined_assoc s t u)

pub solid_NoDot : (s : Bytes) → All IsSolid s → NoDot s
solid_NoDot [] solid = tt
solid_NoDot (c ∷ cs) solid = (solid.0.0, solid_NoDot cs solid.1)

cons_first-NoDot :
    (c : ℕ) (parts : List Bytes) → c ≢ b'.' → All NoDot parts → All NoDot (cons_first c parts)
unfolding cons_first
cons_first-NoDot c [] h dots = ((h, tt), tt)
cons_first-NoDot c (part ∷ parts) h dots = ((h, dots.0), dots.1)

pub split_dots-NoDot : (s : Bytes) → All NoDot (split_dots s)
unfolding split_dots
split_dots-NoDot [] = (tt, tt)
split_dots-NoDot (c ∷ cs) = elim (Bool-cases (c == b'.')) [
  | inl dot ↦ rw dot (tt, split_dots-NoDot cs)
  | inr other ↦ rw other (
      cons_first-NoDot c (split_dots cs) (λ e. cc (other, (==_iff c b'.').1 e))
        (split_dots-NoDot cs))
]
