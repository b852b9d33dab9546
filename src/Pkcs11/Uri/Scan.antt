-- ===== src/Pkcs11/Uri/Scan.antt =====
-- Splitting at separators, encrypt/pkcs11/uri.go: what `strings.Split` and `strings.Cut` give on
-- pieces that do not hold the separator.
use forge_go.Prelude.{
  ℕ, ◌≡◌, ◌≢◌, refl, ap, ◌∙◌, List, [], ◌∷◌, ◌++◌, none, some, arith, All, Bytes,
}
use forge_go.Pkcs11.Uri.{split, cut}

module _ (c : ℕ) where
  pub cut-append : (a b : Bytes) → All (λ x. x ≢ c) a → cut c (a ++ (c ∷ b)) ≡ some (a, b)
  unfolding cut
  cut-append [] b h = ground arith
  cut-append (x ∷ a) b h = ground (arith, cut-append a b h.1)

  pub cut-none : (a : Bytes) → All (λ x. x ≢ c) a → cut c a ≡ none
  unfolding cut
  cut-none [] h = refl
  cut-none (x ∷ a) h = ground (arith, cut-none a h.1)

  pub split-none : (a : Bytes) → All (λ x. x ≢ c) a → split c a ≡ a ∷ []
  unfolding split
  split-none [] h = refl
  split-none (x ∷ a) h = ground (arith, split-none a h.1)

  pub split-append : (a b : Bytes) → All (λ x. x ≢ c) a → split c (a ++ (c ∷ b)) ≡ a ∷ split c b
  unfolding split
  split-append [] b h = ground arith
  split-append (x ∷ a) b h = ground (arith, split-append a b h.1)

  -- The pieces with one separator between each two.
  abbrev pub join : Bytes → List Bytes → Bytes
  join s [] = s
  join s (t ∷ ts) = s ++ (c ∷ join t ts)

  pub split-join :
      (s : Bytes) (ss : List Bytes)
      → All (λ x. x ≢ c) s
      → All (All (λ x. x ≢ c)) ss
      → split c (join s ss) ≡ s ∷ ss
  split-join s [] h k = split-none s h
  split-join s (t ∷ ts) h k = split-append s (join t ts) h ∙ ap (◌∷◌ s) (split-join t ts k.0 k.1)
