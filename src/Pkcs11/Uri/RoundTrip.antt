-- ===== src/Pkcs11/Uri/RoundTrip.antt =====
-- encrypt/pkcs11/uri.go: `parseKeyURI` against `String`, and what every parsed reference satisfies.
use forge_go.Prelude.{◌≡◌, ◌≢◌, sym, ap, ◌∙◌, false, ◌&&◌, [], ◌++◌, All, Bytes}
use forge_go.Prelude.Utf8.Trim.{trim_space}
use forge_go.Pkcs11.Uri.{
  KeyUri, ok, is_empty, empty_uri, uri_scheme, parse_key_uri, parse_body, split_query, is_key_uri,
  parse_segments, reject_pin_attributes, split,
}
use forge_go.Pkcs11.Uri.Format.{format}
use forge_go.Pkcs11.Uri.Scan.{cut-none}
use forge_go.Pkcs11.Uri.Attributes.{set_all, format-join, set_all-attributes}
use forge_go.Pkcs11.Uri.Printed.{
  IsPrintable, attributes-IsWritten, attributes-nonempty, body-nonempty, body-ne_query,
  parse_segments-body, trim_space-printed,
}

parse_key_uri-scheme :
    (s : Bytes)
    → trim_space (uri_scheme ++ s) ≡ uri_scheme ++ s
    → parse_key_uri (uri_scheme ++ s) ≡ parse_body (split_query s)
unfolding parse_key_uri is_key_uri
parse_key_uri-scheme s h = rw h (rw h)

split_query-none : (s : Bytes) → All (λ x. x ≢ b'?') s → split_query s ≡ (s, [])
unfolding split_query
split_query-none s h = rw (cut-none b'?' s h, split_query)

parse_body-segments :
    (path : Bytes) (u : KeyUri)
    → is_empty path ≡ false
    → parse_segments empty_uri (split b';' path) ≡ ok u
    → (is_empty u.object && is_empty u.id) ≡ false
    → parse_body (path, []) ≡ ok u
unfolding parse_body reject_pin_attributes
parse_body-segments path u full parsed key = rw full (rw parsed (rw key))

-- `parseKeyURI` reads back what `String` prints: for every reference of bytes that names an object
-- or an id, with one of the five classes if it has one and class 0 if it has none, the parse of the
-- printed text succeeds with that very reference, whatever bytes its label and id hold.
pub parse_key_uri-format : {u : KeyUri} → IsPrintable u → parse_key_uri (format u) ≡ ok u
parse_key_uri-format {u} p =
    let (a, ats, e) = attributes-nonempty p in
    let written = rw e at (attributes-IsWritten p) in
    rw (format-join u a ats e) (
      parse_key_uri-scheme _ (trim_space-printed a ats written)
      ∙ ap parse_body (split_query-none _ (body-ne_query a ats written))
      ∙ parse_body-segments _ u (body-nonempty a ats)
          (parse_segments-body a ats written empty_uri
            ∙ ap (set_all empty_uri) (sym e)
            ∙ set_all-attributes u p.class_known)
          p.has_key)
