-- ===== src/Prelude/Strings.antt =====
-- Go strings and byte slices: lists of byte values.
use Prim.Native.Char.{code}
use Prim.Native.Nat.{ℕ}
use Prim.Native.String.{String}
use mathlib.Core.Bool.{Bool, true, false, ◌&&◌}
use mathlib.Core.List.{List, [], ◌∷◌, ◌++◌}
use mathlib.Core.Logic.{◌↔◌}
use mathlib.Core.Path.{◌≡◌, refl}
use native.Mathlib.Omega.{arith}
use forge_go.Prelude.Tests.{◌==◌}

abbrev pub Bytes : Type 0
Bytes = List ℕ

-- The bytes of an ASCII literal.
abbrev pub codes : String → Bytes
codes String.[] = []
codes (String.◌∷◌ c s) = code c ∷ codes s

-- `==` on strings, `bytes.Equal`.
unfoldable pub equal : Bytes → Bytes → Bool
equal [] [] = true
equal (x ∷ xs) (y ∷ ys) = x == y && equal xs ys
equal _ _ = false

pub equal_iff : (left right : Bytes) → (equal left right ≡ true) ↔ (left ≡ right)
unfolding equal
equal_iff [] [] = ((λ _. refl), (λ _. refl))
equal_iff [] (d ∷ right) = ((λ h. cc), (λ h. cc))
equal_iff (c ∷ left) [] = ((λ h. cc), (λ h. cc))
equal_iff (c ∷ left) (d ∷ right) = ground (arith, equal_iff left right)

pub equal_refl : (a : Bytes) → equal a a ≡ true
equal_refl a = (equal_iff a a).1 refl

-- `strings.HasPrefix`
unfoldable pub has_prefix : Bytes → Bytes → Bool
has_prefix s [] = true
has_prefix [] (y ∷ ys) = false
has_prefix (x ∷ s) (y ∷ ys) = x == y && has_prefix s ys

has_prefix_found : (s t : Bytes) → has_prefix s t ≡ true → (u : Bytes) × (s ≡ t ++ u)
unfolding has_prefix
has_prefix_found s [] h = (s, refl)
has_prefix_found [] (y ∷ ys) h = cc
has_prefix_found (x ∷ s) (y ∷ ys) h =
    let (u, e) = has_prefix_found s ys (ground arith) in (u, ground arith)

has_prefix-append : (t u : Bytes) → has_prefix (t ++ u) t ≡ true
unfolding has_prefix
has_prefix-append [] u = refl
has_prefix-append (y ∷ ys) u = ground (arith, has_prefix-append ys u)

pub has_prefix_iff : (s t : Bytes) → (has_prefix s t ≡ true) ↔ ((u : Bytes) × (s ≡ t ++ u))
has_prefix_iff s t = (has_prefix_found s t, λ p. rw p.1 (has_prefix-append t p.0))
