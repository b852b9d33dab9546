-- ===== src/Pkcs11/Modules/Capacity.antt =====
-- The capacity that encrypt/pkcs11/session.go gives a pool, against the limit of the token.
use mathlib.Core.Path.{subst}
use forge_go.Prelude.{
  ℕ, zero, suc, ◌≤◌, ◌<◌, ◌≡◌, ◌≢◌, refl, sym, ap, arith, inl, inr, ◌⊎◌, Option, none, List, [],
  ◌∷◌, some, ℤ, pos, negsuc, ◌==◌, ==_iff, Bool-cases,
}
use forge_go.Pkcs11.Sessions.{new_session_pool, at_least_one}
use forge_go.Pkcs11.Modules.{SlotState, ModuleEntry}
use forge_go.Pkcs11.Modules.Slots.{
  SlotInfo, SlotError, Config, to_uint64, to_int, clamp, pool_size, find_slot, new_slot, cached,
  resolved_slot, slot_for, resolve_slot_id,
}

-- The smallest limit that the token reports for a slot.
abbrev pub Within : ℕ → ℕ → List SlotInfo → Type 0
Within capacity slot_id [] = Unit
Within capacity slot_id (slot ∷ slots) =
    (slot.id ≡ slot_id → slot.max_sessions ≢ 0 → capacity ≤ slot.max_sessions)
    × Within capacity slot_id slots

-- An int, for which the whole range is written out.
abbrev pub IsInt : ℤ → Type 0
IsInt (pos n) = n < 9223372036854775808
IsInt (negsuc n) = n < 9223372036854775808

-- No two listed slots have one id.
abbrev Absent : ℕ → List SlotInfo → Type 0
Absent id [] = Unit
Absent id (slot ∷ slots) = (slot.id ≢ id) × Absent id slots

abbrev pub AreDistinct : List SlotInfo → Type 0
AreDistinct [] = Unit
AreDistinct (slot ∷ slots) = Absent slot.id slots × AreDistinct slots

Absent-Within :
    (capacity id : ℕ) (slots : List SlotInfo) → Absent id slots → Within capacity id slots
Absent-Within capacity id [] absent = tt
Absent-Within capacity id (slot ∷ slots) absent =
    ((λ here limited. absurd (absent.0 here)), Absent-Within capacity id slots absent.1)

clamp-Absent :
    (size : ℤ) (slot_id : ℕ) (slots : List SlotInfo)
    → Absent slot_id slots
    → clamp size slot_id slots ≡ size
unfolding clamp
clamp-Absent size slot_id [] absent = refl
clamp-Absent size slot_id (slot ∷ slots) absent =
    ground (arith, clamp-Absent size slot_id slots absent.1)

at_least_one-to_int : (m : ℕ) → m ≢ 0 → at_least_one (to_int m) ≤ m
at_least_one-to_int m positive = ground arith

at_least_one_fits :
    (size : ℤ) (m : ℕ) → IsInt size → m ≢ 0 → to_uint64 size ≤ m → at_least_one size ≤ m
at_least_one_fits (pos zero) m int positive fits = omega arith
at_least_one_fits (pos (suc n)) m int positive fits = omega arith
at_least_one_fits (negsuc n) m int positive fits = omega arith

clamp-Within :
    (size : ℤ) (slot_id : ℕ) (slots : List SlotInfo)
    → IsInt size
    → AreDistinct slots
    → Within (at_least_one (clamp size slot_id slots)) slot_id slots
unfolding clamp
clamp-Within size slot_id [] int distinct = tt
clamp-Within size slot_id (slot ∷ slots) int distinct = elim (Bool-cases (slot.id == slot_id)) [
  | inr other ↦
      let same : clamp size slot_id (slot ∷ slots) ≡ clamp size slot_id slots = ground arith in
      subst (λ n. Within (at_least_one n) slot_id (slot ∷ slots)) (sym same)
        (
          (λ here. absurd (ground (arith, (==_iff slot.id slot_id).1 here))),
          clamp-Within size slot_id slots int distinct.1,
        )
  | inl this ↦
      let absent : Absent slot_id slots =
        subst (λ id. Absent id slots) ((==_iff slot.id slot_id).0 this) distinct.0 in
      (
        (λ here limited. ground (
          arith,
          clamp-Absent size slot_id slots absent,
          at_least_one-to_int slot.max_sessions limited,
          at_least_one_fits size slot.max_sessions int limited,
        )),
        Absent-Within _ slot_id slots absent,
      )
]

at_least_one_positive : (size : ℤ) → 1 ≤ at_least_one size
at_least_one_positive (pos zero) = omega arith
at_least_one_positive (pos (suc n)) = omega arith
at_least_one_positive (negsuc n) = omega arith

module _ (cfg : Config) (slots : List SlotInfo) (int : IsInt cfg.max_session)
    (distinct : AreDistinct slots) where
  new_slot_lem :
      (id : ℕ) (mechanisms : List ℕ)
      → let made = new_slot cfg id mechanisms (some slots) in
        (1 ≤ made.pool.size) × Within made.pool.size made.id slots
  unfolding pool_size new_session_pool
  new_slot_lem id mechanisms = (
    at_least_one_positive (clamp cfg.max_session id slots),
    clamp-Within cfg.max_session id slots int distinct,
  )

find_slot-id :
    (id : ℕ) (slots : List SlotState) (slot : SlotState)
    → find_slot id slots ≡ some slot
    → slot.id ≡ id
unfolding find_slot
find_slot-id id [] slot h = cc
find_slot-id id (s ∷ slots) slot h = ground (arith, find_slot-id id slots slot, ==_iff s.id id)

abbrev answered : SlotState → (SlotError ⊎ SlotState) × ModuleEntry → SlotState
answered other (inl _, _) = other
answered other (inr slot, _) = slot

-- For every int that is configured, negative ones included, and a list of slots with different
-- ids: when slotFor gives a slot that the registry did not hold yet, its pool holds at least one
-- session, and no more than the token of that slot reports as its limit, if it reports one.
pub pool_size_lem :
    (cfg : Config) (mechanisms : Option (List ℕ)) (slots : List SlotInfo) (e after : ModuleEntry)
    (slot : SlotState)
    → IsInt cfg.max_session
    → AreDistinct slots
    → find_slot slot.id e.slots ≡ none
    → slot_for cfg mechanisms (some slots) e ≡ (inr slot, after)
    → (1 ≤ slot.pool.size) × Within slot.pool.size slot.id slots
unfolding slot_for resolved_slot cached
pool_size_lem cfg mechanisms slots e after slot int distinct fresh made =
    by_id (resolve_slot_id cfg (some slots)) made
  where
    by_mechanisms :
        (id : ℕ) (m : Option (List ℕ)) (found : Option SlotState)
        → find_slot id e.slots ≡ found
        → cached cfg id m (some slots) e found ≡ (inr slot, after)
        → (1 ≤ slot.pool.size) × Within slot.pool.size slot.id slots
    by_mechanisms id m (some old) f h =
        let here = find_slot-id id e.slots old f in cc (fresh, f, here, ap (answered old) h)
    by_mechanisms id none none f h = ground arith
    by_mechanisms id (some ms) none f h =
        let made = new_slot cfg id ms (some slots) in
        subst (λ (x : SlotState). (1 ≤ x.pool.size) × Within x.pool.size x.id slots)
          (ap (answered made) h) (new_slot_lem cfg slots int distinct id ms)

    by_id :
        (answer : SlotError ⊎ ℕ)
        → resolved_slot cfg mechanisms (some slots) e answer ≡ (inr slot, after)
        → (1 ≤ slot.pool.size) × Within slot.pool.size slot.id slots
    by_id (inl problem) h = ground arith
    by_id (inr id) h = by_mechanisms id mechanisms (find_slot id e.slots) refl h
