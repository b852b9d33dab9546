-- ===== src/Portable/Text/Normalize.antt =====
-- share/portable/text.go: the steps of `normalize` are idempotent, on bytes and whatever they hold.
use forge_go.Prelude.{
  ℕ, ◌+◌, ◌≡◌, refl, ap, ◌∙◌, Bool, true, false, List, [], ◌∷◌, arith, All, Bytes, if◌then◌else◌,
  ◌⊎◌,
}
use forge_go.Prelude.Utf8.{runes, encode, is_space, within}
use forge_go.Prelude.Utf8.RoundTrip.{IsScalar, runes-encode, runes_from-IsScalar}
use forge_go.Portable.Text.{collapse_runes, collapse_whitespace, lower_runes, lowercase_ascii}

-- No space follows a space, and every space is the ASCII one; the flag says that one came before.
abbrev pub Collapsed : Bool → List ℕ → Type 0
Collapsed before [] = Unit
Collapsed before (r ∷ rs) =
    (is_space r ≡ true → (r ≡ 0x20) × (before ≡ false)) × Collapsed (is_space r) rs

space_is_space : is_space 0x20 ≡ true
unfolding is_space
space_is_space = refl

collapse_runes-Collapsed :
    (before : Bool) (rs : List ℕ) → Collapsed before (collapse_runes before rs)
unfolding collapse_runes
collapse_runes-Collapsed before [] = tt
collapse_runes-Collapsed before (r ∷ rs) =
    ground (arith, space_is_space, collapse_runes-Collapsed (is_space r) rs)

collapse_runes_id :
    (before : Bool) (rs : List ℕ) → Collapsed before rs → collapse_runes before rs ≡ rs
unfolding collapse_runes
collapse_runes_id before [] h = refl
collapse_runes_id before (r ∷ rs) h = ground (arith, collapse_runes_id (is_space r) rs h.1)

-- The runes that are not white space.
abbrev pub words : List ℕ → List ℕ
words [] = []
words (r ∷ rs) = if is_space r then words rs else r ∷ words rs

words-collapse_runes : (before : Bool) (rs : List ℕ) → words (collapse_runes before rs) ≡ words rs
unfolding collapse_runes
words-collapse_runes before [] = refl
words-collapse_runes before (r ∷ rs) =
    ground (arith, space_is_space, words-collapse_runes (is_space r) rs)

-- Where the white space stands: for each other rune whether any is before it since the last such rune,
-- and for the end. The flag says that some has just been read.
abbrev pub gaps : Bool → List ℕ → List Bool
gaps before [] = before ∷ []
gaps before (r ∷ rs) = if is_space r then gaps true rs else before ∷ gaps false rs

gaps-collapse_runes :
    (in_whitespace before : Bool) (rs : List ℕ)
    → (in_whitespace ≡ true → before ≡ true)
    → gaps before (collapse_runes in_whitespace rs) ≡ gaps before rs
unfolding collapse_runes
gaps-collapse_runes in_whitespace before [] h = refl
gaps-collapse_runes in_whitespace before (r ∷ rs) h = ground (
  arith,
  space_is_space,
  gaps-collapse_runes true true rs (λ _. refl),
  gaps-collapse_runes false false rs (λ e. e),
)

collapse_runes-IsScalar :
    (before : Bool) (rs : List ℕ) → All IsScalar rs → All IsScalar (collapse_runes before rs)
unfolding collapse_runes
collapse_runes-IsScalar before [] h = tt
collapse_runes-IsScalar before (r ∷ rs) h =
    ground (arith, collapse_runes-IsScalar (is_space r) rs h.1)

runes-collapse_whitespace :
    (s : Bytes) → runes (collapse_whitespace s) ≡ collapse_runes false (runes s)
unfolding collapse_whitespace
runes-collapse_whitespace s =
    runes-encode _ (collapse_runes-IsScalar false (runes s) (runes_from-IsScalar 0 s))

-- For every byte string, what collapseWhitespace writes decodes to runes in which each white space
-- is one ASCII space with no space before it, the other runes are those of the input in order, and
-- one of them, or the end, has white space before it exactly where it has in the input; a second
-- pass changes nothing.
pub collapse_whitespace_lem :
    (s : Bytes)
    → Collapsed false (runes (collapse_whitespace s))
      × (words (runes (collapse_whitespace s)) ≡ words (runes s))
      × (gaps false (runes (collapse_whitespace s)) ≡ gaps false (runes s))
      × (collapse_whitespace (collapse_whitespace s) ≡ collapse_whitespace s)
collapse_whitespace_lem s = (
  rw (runes-collapse_whitespace s) (collapse_runes-Collapsed false (runes s)),
  rw (runes-collapse_whitespace s) (words-collapse_runes false (runes s)),
  rw (runes-collapse_whitespace s) (gaps-collapse_runes false false (runes s) (λ e. e)),
  unfold collapse_whitespace in
      ap encode (
        ap (collapse_runes false) (runes-collapse_whitespace s)
        ∙ collapse_runes_id false _ (collapse_runes-Collapsed false (runes s))),
)

-- No ASCII capital is left.
abbrev pub NoCapital : ℕ → Type 0
NoCapital r = within b'A' b'Z' r ≡ false

-- Two runes that differ at most in the case of an ASCII letter.
abbrev pub SameButCase : List ℕ → List ℕ → Type 0
SameButCase [] [] = Unit
SameButCase (a ∷ rs) (b ∷ ss) =
    ((a ≡ b) ⊎ ((a ≡ b + 32) × (within b'A' b'Z' b ≡ true))) × SameButCase rs ss
SameButCase _ _ = ⊥

lower_runes-NoCapital : (rs : List ℕ) → All NoCapital (lower_runes rs)
unfolding lower_runes
lower_runes-NoCapital [] = tt
lower_runes-NoCapital (r ∷ rs) = (ground arith, lower_runes-NoCapital rs)

lower_runes-SameButCase : (rs : List ℕ) → SameButCase (lower_runes rs) rs
unfolding lower_runes
lower_runes-SameButCase [] = tt
lower_runes-SameButCase (r ∷ rs) = (ground arith, lower_runes-SameButCase rs)

lower_runes_id : (rs : List ℕ) → All NoCapital rs → lower_runes rs ≡ rs
unfolding lower_runes
lower_runes_id [] h = refl
lower_runes_id (r ∷ rs) h = ground (arith, lower_runes_id rs h.1)

lower_runes-IsScalar : (rs : List ℕ) → All IsScalar rs → All IsScalar (lower_runes rs)
unfolding lower_runes
lower_runes-IsScalar [] h = tt
lower_runes-IsScalar (r ∷ rs) h = (ground arith, lower_runes-IsScalar rs h.1)

runes-lowercase_ascii : (s : Bytes) → runes (lowercase_ascii s) ≡ lower_runes (runes s)
unfolding lowercase_ascii
runes-lowercase_ascii s = runes-encode _ (lower_runes-IsScalar (runes s) (runes_from-IsScalar 0 s))

-- For every byte string: what `lowercaseASCII` writes decodes to the input's runes, rune by rune
-- the same or, for an ASCII capital, 32 higher; no ASCII capital is left, and a second pass
-- changes nothing.
pub lowercase_ascii_lem :
    (s : Bytes)
    → SameButCase (runes (lowercase_ascii s)) (runes s)
      × All NoCapital (runes (lowercase_ascii s))
      × (lowercase_ascii (lowercase_ascii s) ≡ lowercase_ascii s)
lowercase_ascii_lem s = (
  rw (runes-lowercase_ascii s) (lower_runes-SameButCase (runes s)),
  rw (runes-lowercase_ascii s) (lower_runes-NoCapital (runes s)),
  unfold lowercase_ascii in
      ap encode (
        ap lower_runes (runes-lowercase_ascii s)
        ∙ lower_runes_id _ (lower_runes-NoCapital (runes s))),
)
