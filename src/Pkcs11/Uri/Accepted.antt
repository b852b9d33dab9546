-- ===== src/Pkcs11/Uri/Accepted.antt =====
-- encrypt/pkcs11/uri.go: what a reference that `parseKeyURI` accepts is known to satisfy.
use forge_go.Prelude.{
  ◌≡◌, ◌≢◌, refl, sym, ◌∙◌, true, false, ◌&&◌, ◌⊎◌, inl, inr, List, [], ◌∷◌, ◌++◌, arith, All,
  Bytes, codes, equal, drop, Bool-cases,
}
use forge_go.Prelude.Utf8.Trim.{trim_space}
use forge_go.Pkcs11.Uri.{
  KeyUri, Result, ok, err, ◌>>=◌, is_empty, uri_scheme, parse_key_uri, name_of, is_pin, parse_body,
  split_query, reject_pin_attributes, reject_segments, split, cut,
}
use forge_go.Pkcs11.Uri.Scan.{cut-append, split-join, join}

>>=-eq-ok {ℓ κ} :
    {V : Type ℓ} {W : Type κ} (first : Result V) (next : V → Result W) {result : W}
    → (first >>= next) ≡ ok result
    → (value : V) × (first ≡ ok value) × (next value ≡ ok result)
>>=-eq-ok (ok value) next returned = (value, refl, returned)
>>=-eq-ok (err refusal) next returned = cc

parse_key_uri-eq-ok :
    (r : Bytes) {u : KeyUri}
    → parse_key_uri r ≡ ok u
    → parse_body (split_query (drop 7 (trim_space r))) ≡ ok u
unfolding parse_key_uri
parse_key_uri-eq-ok r h = ground arith

parse_body-eq-ok :
    (path query : Bytes) {u : KeyUri}
    → parse_body (path, query) ≡ ok u
    → (reject_pin_attributes query ≡ ok tt) × ((is_empty u.object && is_empty u.id) ≡ false)
unfolding parse_body
parse_body-eq-ok path query h = ground arith

reject_pin_attributes-split : (q : Bytes) → reject_pin_attributes q ≡ reject_segments (split b'&' q)
unfolding reject_pin_attributes reject_segments split cut
reject_pin_attributes-split [] = refl
reject_pin_attributes-split (b ∷ bs) = refl

-- A query attribute that hands over a PIN, with a value or without one.
abbrev pub CarriesPin : Bytes → Type 0
CarriesPin t =
    (t ≡ codes "pin-value")
    ⊎ (t ≡ codes "pin-source")
    ⊎ ((v : Bytes) × (t ≡ codes "pin-value" ++ (b'=' ∷ v)))
    ⊎ ((v : Bytes) × (t ≡ codes "pin-source" ++ (b'=' ∷ v)))

CarriesPin-is_pin : (t : Bytes) → CarriesPin t → is_pin (name_of t (cut b'=' t)) ≡ true
unfolding cut equal
CarriesPin-is_pin t (inl e) = rw e
CarriesPin-is_pin t (inr (inl e)) = rw e
CarriesPin-is_pin t (inr (inr (inl (v, e)))) = rw e
CarriesPin-is_pin t (inr (inr (inr (v, e)))) = rw e

reject_segments_sound :
    (ss : List Bytes) → reject_segments ss ≡ ok tt → All (λ t. ¬ CarriesPin t) ss
unfolding reject_segments
reject_segments_sound [] h = tt
reject_segments_sound (t ∷ ss) h = elim (Bool-cases (is_pin (name_of t (cut b'=' t)))) [
  | inl pin ↦ cc (rw pin at h)
  | inr clean ↦ (λ c. cc (CarriesPin-is_pin t c), reject_segments_sound ss (rw clean at h))
]

names_key : (r : Bytes) {u : KeyUri} → parse_key_uri r ≡ ok u → (u.object ≢ []) ⊎ (u.id ≢ [])
names_key r {u} parsed =
    let (path, query) = split_query (drop 7 (trim_space r)) in
    ground (arith, (parse_body-eq-ok path query (parse_key_uri-eq-ok r parsed)).1)

carries_no_pin :
    (r path : Bytes) (s : Bytes) (ss : List Bytes) {u : KeyUri}
    → trim_space r ≡ uri_scheme ++ (path ++ (b'?' ∷ join b'&' s ss))
    → All (λ x. x ≢ b'?') path
    → All (λ x. x ≢ b'&') s
    → All (All (λ x. x ≢ b'&')) ss
    → parse_key_uri r ≡ ok u
    → All (λ t. ¬ CarriesPin t) (s ∷ ss)
carries_no_pin r path s ss {u} e hp h hs parsed = reject_segments_sound (s ∷ ss) clean
  where
    split_path : split_query (path ++ (b'?' ∷ join b'&' s ss)) ≡ (path, join b'&' s ss)
    split_path = unfold split_query in rw (cut-append b'?' path (join b'&' s ss) hp, split_query)

    on_body : parse_body (path, join b'&' s ss) ≡ ok u
    on_body = rw split_path at (rw e at (parse_key_uri-eq-ok r parsed))

    clean : reject_segments (s ∷ ss) ≡ ok tt
    clean =
        rw (← split-join b'&' s ss h hs)
          (sym (reject_pin_attributes-split _) ∙ (parse_body-eq-ok path _ on_body).0)

-- A reference that parseKeyURI accepts names an object or an id; and whichever way its text is the
-- scheme, a path without a question mark, a question mark and attributes between ampersands, none
-- of these attributes is a pin-value or a pin-source, with a value or without one.
pub parse_key_uri_accepted :
    (r : Bytes) {u : KeyUri}
    → parse_key_uri r ≡ ok u
    → ((u.object ≢ []) ⊎ (u.id ≢ []))
      × ((path s : Bytes) (ss : List Bytes)
          → trim_space r ≡ uri_scheme ++ (path ++ (b'?' ∷ join b'&' s ss))
          → All (λ x. x ≢ b'?') path
          → All (λ x. x ≢ b'&') s
          → All (All (λ x. x ≢ b'&')) ss
          → All (λ t. ¬ CarriesPin t) (s ∷ ss))
parse_key_uri_accepted r parsed =
    (names_key r parsed, λ path s ss e hp h hs. carries_no_pin r path s ss e hp h hs parsed)
