-- ===== src/Portable/Json/Tree.antt =====
-- JSON documents as trees, for share/portable/json.go: what it means that a list of tokens is one
-- value of bounded depth in which no object repeats a key.
use forge_go.Prelude.{ℕ, ◌+◌, ◌≡◌, ◌≢◌, false, List, [], ◌∷◌, All, Bytes, ℤ, pos, lt_int}
use forge_go.Portable.Json.{Token, open_object, close_object, open_array, close_array, scalar, text}

mutual
  pub data Value : Type 0 where
    atom : Value
    string : Bytes → Value
    object : Fields → Value
    array : Items → Value

  pub data Fields : Type 0 where
    end : Fields
    field : Bytes → Value → Fields → Fields

  pub data Items : Type 0 where
    nil : Items
    item : Value → Items → Items

-- The tokens of a value, in front of the tokens that follow it.
abbrev mutual
  pub print : Value → List Token → List Token
  print atom rest = scalar ∷ rest
  print (string s) rest = text s ∷ rest
  print (object fs) rest = open_object ∷ print_fields fs (close_object ∷ rest)
  print (array xs) rest = open_array ∷ print_items xs (close_array ∷ rest)

  pub print_fields : Fields → List Token → List Token
  print_fields end rest = rest
  print_fields (field k v fs) rest = text k ∷ print v (print_fields fs rest)

  pub print_items : Items → List Token → List Token
  print_items nil rest = rest
  print_items (item v xs) rest = print v (print_items xs rest)

-- The value stands at the depth, nothing in it is deeper than `max`, and each key of an object
-- differs from those before it.
abbrev mutual
  pub Fits : ℤ → ℕ → Value → Type 0
  Fits max depth atom = lt_int max (pos depth) ≡ false
  Fits max depth (string s) = lt_int max (pos depth) ≡ false
  Fits max depth (object fs) = (lt_int max (pos depth) ≡ false) × FitsFields max depth [] fs
  Fits max depth (array xs) = (lt_int max (pos depth) ≡ false) × FitsItems max depth xs

  pub FitsFields : ℤ → ℕ → List Bytes → Fields → Type 0
  FitsFields max depth seen end = Unit
  FitsFields max depth seen (field k v fs) =
      All (λ j. k ≢ j) seen × (Fits max (depth + 1) v × FitsFields max depth (k ∷ seen) fs)

  pub FitsItems : ℤ → ℕ → Items → Type 0
  FitsItems max depth nil = Unit
  FitsItems max depth (item v xs) = Fits max (depth + 1) v × FitsItems max depth xs
