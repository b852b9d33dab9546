-- ===== src/Pkcs11/Uri/Attributes.antt =====
-- encrypt/pkcs11/uri.go: the reference ats the list of its attributes, printed and read one by one.
use mathlib.Core.List.{append_assoc}
use mathlib.Core.Path.{fun_ext}
use forge_go.Prelude.{
  ◌<◌, ◌≡◌, ◌≢◌, refl, ap, ◌∙◌, true, false, List, [], ◌∷◌, ◌++◌, map, Option, none, some, arith,
  All, Bytes, codes, if◌then◌else◌,
}
use forge_go.Pkcs11.Uri.{
  KeyUri, Result, ok, ◌>>=◌, empty_uri, type_from_class, set_attribute, parse_segment,
  parse_segments, uri_scheme,
}
use forge_go.Pkcs11.Uri.Format.{append_attribute, escape_attribute, Builder, format_parts, format}
use forge_go.Pkcs11.Uri.Escape.{IsByte, IsInner, unescape-escape_attribute}
use forge_go.Pkcs11.Uri.Scan.{cut-append, join}

abbrev pub Attribute : Type 0
Attribute = Bytes × Bytes

abbrev pub optional : Bytes → Bytes → List Attribute
optional name [] = []
optional name (b ∷ bs) = (name, b ∷ bs) ∷ []

abbrev pub typed : Option Bytes → List Attribute
typed none = []
typed (some name) = (codes "type", name) ∷ []

abbrev pub named : Bytes → Bytes → Bytes → List Attribute
named token object id =
    optional (codes "token") token ++ (optional (codes "object") object ++ optional (codes "id") id)

abbrev pub class_name : KeyUri → Option Bytes
class_name u = if u.has_class then type_from_class u.class else none

-- The attributes that `String` writes, in its order.
abbrev pub attributes : KeyUri → List Attribute
attributes u = named u.token u.object u.id ++ typed (class_name u)

abbrev pub segment : Attribute → Bytes
segment (name, value) = name ++ (b'=' ∷ escape_attribute value)

append_all : Builder → List Attribute → Builder
append_all s [] = s
append_all s ((name, value) ∷ ats) = append_all (append_attribute s name value) ats

append_all-format_parts :
    (t o i : Bytes) (c : Option Bytes)
    → format_parts t o i c ≡ (append_all (uri_scheme, true) (named t o i ++ typed c)).0
unfolding append_all format_parts
append_all-format_parts t o i c = ground arith

-- Behind a first segment, `append_all` joins with `;`.
append_all-join :
    (ats : List Attribute) (out s : Bytes)
    → (append_all (out ++ s, false) ats).0 ≡ out ++ join b';' s (map segment ats)
unfolding append_all append_attribute
append_all-join [] out s = refl
append_all-join ((n, v) ∷ ats) out s =
    ap (λ (t : Bytes). (append_all (t, false) ats).0) (append_assoc out s (b';' ∷ segment (n, v)))
    ∙ append_all-join ats out (s ++ (b';' ∷ segment (n, v)))
    ∙ ap (◌++◌ out) (join-append ats s (segment (n, v)))
  where
    join-append :
        (bs : List Attribute) (s t : Bytes)
        → join b';' (s ++ (b';' ∷ t)) (map segment bs) ≡ s ++ (b';' ∷ join b';' t (map segment bs))
    join-append [] s t = refl
    join-append (b ∷ bs) s t = append_assoc s (b';' ∷ t) _

-- A printed reference is the scheme and its attributes, joined with `;`.
pub format-join :
    (u : KeyUri) (a : Attribute) (ats : List Attribute)
    → attributes u ≡ a ∷ ats
    → format u ≡ uri_scheme ++ join b';' (segment a) (map segment ats)
unfolding format append_all append_attribute
format-join u (n, v) ats e =
    append_all-format_parts u.token u.object u.id (class_name u)
    ∙ ap (λ (l : List Attribute). (append_all (uri_scheme, true) l).0) e
    ∙ append_all-join ats uri_scheme (segment (n, v))

abbrev pub set_all : KeyUri → List Attribute → Result KeyUri
set_all u [] = ok u
set_all u ((n, v) ∷ ats) = set_attribute u n v >>= λ w. set_all w ats

-- A name that `String` writes and a value of bytes.
pub record IsWritten (a : Attribute) : Type 0 where
  pub some_name : a.0 ≢ []
  pub no_equals : All (λ x. x ≢ b'=') a.0
  pub inner_name : All IsInner a.0
  pub bytes : All IsByte a.1

parse_segment-segment :
    (u : KeyUri) (n v : Bytes)
    → IsWritten (n, v)
    → parse_segment u (segment (n, v)) ≡ set_attribute u n v
unfolding parse_segment
parse_segment-segment u [] v w = absurd (w.some_name refl)
parse_segment-segment u (c ∷ n) v w =
    rw (cut-append b'=' (c ∷ n) (escape_attribute v) w.no_equals, parse_segment)
      (rw (unescape-escape_attribute v w.bytes, parse_segment))

pub parse_segments-map :
    (ats : List Attribute) (u : KeyUri)
    → All IsWritten ats
    → parse_segments u (map segment ats) ≡ set_all u ats
unfolding parse_segments
parse_segments-map [] u h = refl
parse_segments-map ((n, v) ∷ ats) u h =
    ap (λ (r : Result KeyUri). r >>= λ w. parse_segments w (map segment ats))
      (parse_segment-segment u n v h.0)
    ∙ ap (λ (k : KeyUri → Result KeyUri). set_attribute u n v >>= k)
        (fun_ext (λ w. parse_segments-map ats w h.1))

set_all-named :
    (t o i : Bytes) (c : List Attribute)
    → set_all empty_uri (named t o i ++ c)
      ≡ set_all (record { token = t; object = o; id = i; class = 0; has_class = false }) c
unfolding set_attribute
set_all-named t o i c = ground arith

-- What the class is worth to `String`: the five known classes, and 0 where there is none.
abbrev pub IsClass : KeyUri → Type 0
IsClass u = (u.has_class ≡ true → u.class < 5) × (u.has_class ≡ false → u.class ≡ 0)

pub set_all-attributes : (u : KeyUri) → IsClass u → set_all empty_uri (attributes u) ≡ ok u
unfolding set_attribute type_from_class
set_all-attributes u h = set_all-named u.token u.object u.id (typed (class_name u)) ∙ ground arith
