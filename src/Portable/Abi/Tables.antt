-- ===== src/Portable/Abi/Tables.antt =====
-- share/portable/manifest.go: the published tables agree with the switches that enforce them.
use forge_go.Prelude.{◌≡◌, Bool, false, ◌||◌, List, [], ◌∷◌, map, arith, Bytes, equal}
use forge_go.Portable.Abi.{
  Limits, OperationDefinition, CapabilityDefinition, manifest_for, is_known_operation,
  supports_capability,
}

-- A linear search by string equality.
abbrev pub contains : List Bytes → Bytes → Bool
contains [] x = false
contains (y ∷ ys) x = equal x y || contains ys x

-- An operation is accepted exactly when the manifest lists it, and a capability can be required
-- exactly when the manifest lists it, whatever the limits.
manifest_for_complete :
    (l : Limits) (s : Bytes)
    → (is_known_operation s
        ≡ contains (map (λ (o : OperationDefinition). o.name) (manifest_for l).operations) s)
      × (supports_capability s
          ≡ contains (map (λ (c : CapabilityDefinition). c.name) (manifest_for l).capabilities) s)
unfolding is_known_operation supports_capability manifest_for
manifest_for_complete l s = ground arith
