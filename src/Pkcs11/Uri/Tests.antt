-- ===== src/Pkcs11/Uri/Tests.antt =====
-- Runs of the parser and the printer of encrypt/pkcs11/uri.go on concrete references.
use forge_go.Prelude.{
  Bytes, List, ◌++◌, ◌≡◌, ◌≢◌, ◌⊎◌, refl, true, false, [], ◌∷◌, All, codes, equal, arith,
  has_prefix,
}
use forge_go.Prelude.Utf8.{decode}
use forge_go.Prelude.Utf8.Trim.{trim_space}
use forge_go.Pkcs11.Uri.Scan.{join}
use forge_go.Pkcs11.Uri.{
  uri_scheme, KeyUri, ok, class_private_key, type_from_class, parse_key_uri, is_key_uri, parse_body,
  split_query, reject_pin_attributes, reject_segments, split, cut, parse_segments, parse_segment,
  set_attribute, class_from_type, unescape, hex_value,
}
use forge_go.Pkcs11.Uri.Format.{format}
use forge_go.Pkcs11.Uri.Printed.{IsPrintable}
use forge_go.Pkcs11.Uri.RoundTrip.{parse_key_uri-format}
use forge_go.Pkcs11.Uri.Accepted.{CarriesPin, parse_key_uri_accepted}

abbrev signing_key : KeyUri
signing_key = record {
  token = codes "t k";
  object = codes "k;1";
  id = 0 ∷ 0xff ∷ 0x3d ∷ [];
  class = class_private_key;
  has_class = true;
}

format-signing_key :
    format signing_key ≡ codes "pkcs11:token=t%20k;object=k%3B1;id=%00%FF%3D;type=private"
unfolding format type_from_class
format-signing_key = refl

signing_key-IsPrintable : IsPrintable signing_key
signing_key-IsPrintable = record {
  token_bytes = omega arith;
  object_bytes = omega arith;
  id_bytes = omega arith;
  has_key = refl;
  class_known = ((λ _. omega arith), (λ e. cc));
}

parse_key_uri-format_example : parse_key_uri (format signing_key) ≡ ok signing_key
parse_key_uri-format_example = parse_key_uri-format signing_key-IsPrintable

abbrev labelled : KeyUri
labelled = record { token = []; object = codes "k"; id = []; class = 0; has_class = false }

parse-labelled : parse_key_uri (codes " pkcs11:object=k?slot-id=1") ≡ ok labelled
unfolding parse_key_uri is_key_uri parse_body split_query reject_pin_attributes reject_segments
    split cut parse_segments parse_segment set_attribute class_from_type unescape hex_value
    trim_space decode equal has_prefix
parse-labelled = refl

parse_key_uri_accepted_example :
    ((labelled.object ≢ []) ⊎ (labelled.id ≢ []))
    × ((path s : Bytes) (ss : List Bytes)
        → trim_space (codes " pkcs11:object=k?slot-id=1")
          ≡ uri_scheme ++ (path ++ (b'?' ∷ join b'&' s ss))
        → All (λ x. x ≢ b'?') path
        → All (λ x. x ≢ b'&') s
        → All (All (λ x. x ≢ b'&')) ss
        → All (λ t. ¬ CarriesPin t) (s ∷ ss))
parse_key_uri_accepted_example =
    parse_key_uri_accepted (codes " pkcs11:object=k?slot-id=1") parse-labelled
