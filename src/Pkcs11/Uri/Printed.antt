-- ===== src/Pkcs11/Uri/Printed.antt =====
-- encrypt/pkcs11/uri.go: the pieces of a printed reference hold no separator but their own, so the
-- scanners of the parser find them again.
use mathlib.Core.List.{append_assoc}
use forge_go.Prelude.{
  ℕ, ◌≡◌, ◌≢◌, refl, true, false, ◌&&◌, List, [], ◌∷◌, ◌++◌, map, Option, none, some, arith, All,
  All-append, Bytes, codes,
}
use forge_go.Prelude.Utf8.{is_space}
use forge_go.Prelude.Utf8.Trim.{IsPlain, trim_space, trim_space-plain}
use forge_go.Pkcs11.Uri.{KeyUri, is_empty, type_from_class, uri_scheme, parse_segments, split}
use forge_go.Pkcs11.Uri.Escape.{
  IsByte, IsInner, IsInner-IsByte, all_inner, all_inner-All, IsInner-IsPlain, IsInner-ne_semicolon,
  IsInner-ne_query, escape_attribute-IsInner,
}
use forge_go.Pkcs11.Uri.Scan.{join, split-join}
use forge_go.Pkcs11.Uri.Attributes.{
  Attribute, attributes, segment, IsWritten, IsClass, set_all, parse_segments-map, optional, typed,
  class_name,
}

-- A reference that `String` can write: bytes, a key to name, and a class that it knows.
pub record IsPrintable (u : KeyUri) : Type 0 where
  pub token_bytes : All IsByte u.token
  pub object_bytes : All IsByte u.object
  pub id_bytes : All IsByte u.id
  pub has_key : (is_empty u.object && is_empty u.id) ≡ false
  pub class_known : IsClass u

optional-IsWritten :
    (n v : Bytes)
    → n ≢ []
    → All (λ x. x ≢ b'=') n
    → All IsInner n
    → All IsByte v
    → All IsWritten (optional n v)
optional-IsWritten n [] some_name e i h = tt
optional-IsWritten n (b ∷ bs) some_name e i h =
    (record { some_name = some_name; no_equals = e; inner_name = i; bytes = h }, tt)

type_from_class-inner : (c : ℕ) (n : Bytes) → type_from_class c ≡ some n → all_inner n ≡ true
unfolding type_from_class is_space
type_from_class-inner c n h = ground arith

names-IsInner :
    All IsInner (codes "token")
    × All IsInner (codes "object")
    × All IsInner (codes "id")
    × All IsInner (codes "type")
unfolding is_space
names-IsInner = (
  all_inner-All (codes "token") refl,
  all_inner-All (codes "object") refl,
  all_inner-All (codes "id") refl,
  all_inner-All (codes "type") refl,
)

typed-IsWritten :
    (o : Option Bytes) → ((n : Bytes) → o ≡ some n → all_inner n ≡ true) → All IsWritten (typed o)
typed-IsWritten none h = tt
typed-IsWritten (some n) h = (
  record {
    some_name = λ e. cc;
    no_equals = omega arith;
    inner_name = names-IsInner.3;
    bytes = IsInner-IsByte n (all_inner-All n (h n refl));
  },
  tt,
)

class_name-inner : (u : KeyUri) (n : Bytes) → class_name u ≡ some n → all_inner n ≡ true
class_name-inner u n h = ground (arith, type_from_class-inner u.class n)

pub attributes-IsWritten : {u : KeyUri} → IsPrintable u → All IsWritten (attributes u)
attributes-IsWritten {u} p =
    All-append IsWritten _ _
      (All-append IsWritten _ _
        (optional-IsWritten (codes "token") u.token (λ e. cc) (omega arith) names-IsInner.0
          p.token_bytes)
        (All-append IsWritten _ _
          (optional-IsWritten (codes "object") u.object (λ e. cc) (omega arith) names-IsInner.1
            p.object_bytes)
          (optional-IsWritten (codes "id") u.id (λ e. cc) (omega arith) names-IsInner.2
            p.id_bytes)))
      (typed-IsWritten (class_name u) (class_name-inner u))

-- The printed attributes hold no separator but their own.
segment-IsInner : (a : Attribute) → IsWritten a → All IsInner (segment a)
unfolding is_space
segment-IsInner (n, v) w =
    All-append IsInner n _ w.inner_name (refl, escape_attribute-IsInner v w.bytes)

segments-IsInner : (ats : List Attribute) → All IsWritten ats → All (All IsInner) (map segment ats)
segments-IsInner [] h = tt
segments-IsInner (a ∷ ats) h = (segment-IsInner a h.0, segments-IsInner ats h.1)

All-join :
    (P : ℕ → Type 0) (c : ℕ) (s : Bytes) (ss : List Bytes)
    → P c
    → All P s
    → All (All P) ss
    → All P (join c s ss)
All-join P c s [] k h hs = h
All-join P c s (t ∷ ts) k h hs = All-append P s _ h (k, All-join P c t ts k hs.0 hs.1)

All-map :
    (P Q : Bytes → Type 0) → ((s : Bytes) → P s → Q s) → (ss : List Bytes) → All P ss → All Q ss
All-map P Q f [] h = tt
All-map P Q f (s ∷ ss) h = (f s h.0, All-map P Q f ss h.1)

pub attributes-nonempty :
    {u : KeyUri}
    → IsPrintable u
    → (a : Attribute) × (ats : List Attribute) × (attributes u ≡ a ∷ ats)
attributes-nonempty {u} p = go (attributes u) refl
  where
    go :
        (l : List Attribute)
        → attributes u ≡ l
        → (a : Attribute) × (ats : List Attribute) × (attributes u ≡ a ∷ ats)
    go [] e = absurd (ground (arith, p.has_key))
    go (a ∷ ats) e = (a, ats, e)

abbrev pub body : Attribute → List Attribute → Bytes
body a ats = join b';' (segment a) (map segment ats)

module _ (a : Attribute) (ats : List Attribute) (h : All IsWritten (a ∷ ats)) where
  body-IsPlain : All IsPlain (body a ats)
  unfolding is_space
  body-IsPlain =
      All-join IsPlain b';' _ _ (omega arith, refl) (IsInner-IsPlain _ (segment-IsInner a h.0))
        (All-map _ _ IsInner-IsPlain _ (segments-IsInner ats h.1))

  pub body-ne_query : All (λ x. x ≢ b'?') (body a ats)
  body-ne_query =
      All-join (λ x. x ≢ b'?') b';' _ _ (omega arith) (IsInner-ne_query _ (segment-IsInner a h.0))
        (All-map _ _ IsInner-ne_query _ (segments-IsInner ats h.1))

  split-body : split b';' (body a ats) ≡ segment a ∷ map segment ats
  split-body =
      split-join b';' _ _ (IsInner-ne_semicolon _ (segment-IsInner a h.0))
        (All-map _ _ IsInner-ne_semicolon _ (segments-IsInner ats h.1))

  pub parse_segments-body :
      (u : KeyUri) → parse_segments u (split b';' (body a ats)) ≡ set_all u (a ∷ ats)
  parse_segments-body u = rw split-body (parse_segments-map (a ∷ ats) u h)

  pub trim_space-printed : trim_space (uri_scheme ++ body a ats) ≡ uri_scheme ++ body a ats
  unfolding is_space
  trim_space-printed =
      trim_space-plain _ (All-append IsPlain uri_scheme _ scheme-plain body-IsPlain)
    where
      scheme-plain : All IsPlain uri_scheme
      scheme-plain = IsInner-IsPlain uri_scheme (all_inner-All uri_scheme refl)

is_empty-append : (n s : Bytes) → is_empty (n ++ (b'=' ∷ s)) ≡ false
is_empty-append [] s = refl
is_empty-append (b ∷ bs) s = refl

pub body-nonempty : (a : Attribute) (ats : List Attribute) → is_empty (body a ats) ≡ false
body-nonempty (n, v) [] = is_empty-append n _
body-nonempty (n, v) (b ∷ ats) = rw append_assoc (is_empty-append n _)
