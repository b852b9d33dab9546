-- ===== src/Prelude/Utf8/Trim.antt =====
-- `strings.TrimSpace` on byte lists, by whole runes.
use Prim.Native.Nat.{ℕ, zero, suc, ◌<◌}
use mathlib.Core.Bool.{Bool, true, false, ◌&&◌}
use mathlib.Core.List.{[], ◌∷◌}
use mathlib.Core.Path.{◌≡◌, refl, ap}
use native.Mathlib.Omega.{arith}
use forge_go.Prelude.Tests.{if◌then◌else◌}
use forge_go.Prelude.Lists.{All}
use forge_go.Prelude.Strings.{Bytes}
use forge_go.Prelude.Utf8.{decode, is_space}

-- The number counts the bytes of a space still to be dropped.
trim_left : ℕ → Bytes → Bytes
trim_left k [] = []
trim_left (suc k) (b ∷ bs) = trim_left k bs
trim_left zero (b ∷ bs) =
    let rest = trim_left (decode b bs).extra bs in
    if is_space (decode b bs).rune then rest else b ∷ bs

all_space : ℕ → Bytes → Bool
all_space k [] = true
all_space (suc k) (b ∷ bs) = all_space k bs
all_space zero (b ∷ bs) = is_space (decode b bs).rune && all_space (decode b bs).extra bs

trim_right : ℕ → Bytes → Bytes
trim_right k [] = []
trim_right (suc k) (b ∷ bs) = b ∷ trim_right k bs
trim_right zero (b ∷ bs) =
    if all_space zero (b ∷ bs) then [] else b ∷ trim_right (decode b bs).extra bs

unfoldable pub trim_space : Bytes → Bytes
unfolding trim_left all_space trim_right decode is_space
trim_space s = trim_right 0 (trim_left 0 s)

-- ASCII, and no white space.
abbrev pub IsPlain : ℕ → Type 0
IsPlain b = (b < 128) × (is_space b ≡ false)

decode_plain :
    (b : ℕ) (bs : Bytes)
    → IsPlain b
    → (is_space (decode b bs).rune ≡ false) × ((decode b bs).extra ≡ 0)
unfolding decode
decode_plain b bs h = ground arith

trim_left-plain : (s : Bytes) → All IsPlain s → trim_left 0 s ≡ s
unfolding trim_left
trim_left-plain [] h = refl
trim_left-plain (b ∷ bs) h = rw (decode_plain b bs h.0).0

trim_right-plain : (s : Bytes) → All IsPlain s → trim_right 0 s ≡ s
unfolding trim_right all_space
trim_right-plain [] h = refl
trim_right-plain (b ∷ bs) h =
    let (solid, alone) = decode_plain b bs h.0 in
    rw (solid, alone) (ap (◌∷◌ b) (trim_right-plain bs h.1))

pub trim_space-plain : (s : Bytes) → All IsPlain s → trim_space s ≡ s
unfolding trim_space
trim_space-plain s h = rw (trim_left-plain s h) (trim_right-plain s h)
