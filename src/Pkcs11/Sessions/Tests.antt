-- ===== src/Pkcs11/Sessions/Tests.antt =====
-- encrypt/pkcs11/session.go: a pool of one session, which a caller holds.
use forge_go.Prelude.{ℕ, ◌+◌, ◌≤◌, ◌≡◌, refl, true, false, [], ◌∷◌, ◌++◌, some, pos, length}
use forge_go.Pkcs11.Sessions.{
  SessionPool, token_error, new_session_pool, enter, take_idle, opened, session_is_dead, dispose,
}
use forge_go.Pkcs11.Sessions.Steps.{owners, count, Reachable, fresh_pool, enters, takes, opens}
use forge_go.Pkcs11.Sessions.Steps.Bounds.{session_pool_lem, dispose_lem}

abbrev entered : SessionPool
entered = record (new_session_pool (pos 1)) { sem = 1; entering = 1 }

abbrev using : SessionPool
using = opened (some 9) (take_idle entered)

using-Reachable : Reachable (pos 1) using
unfolding new_session_pool enter take_idle owners count
using-Reachable =
    opens (take_idle entered) 0 9 refl refl
      (takes entered 0 refl (enters (new_session_pool (pos 1)) entered refl fresh_pool))

session_pool_example :
    (length using.idle + length using.held + using.opening ≤ using.size)
    × ((h : ℕ) → owners h using ≤ 1)
    × (using.sem ≤ using.size)
    × (using.sem ≡ using.entering + using.opening + length using.held + using.leaving)
session_pool_example = session_pool_lem (pos 1) using using-Reachable

held-using : using.held ≡ [] ++ (9 ∷ [])
unfolding opened take_idle new_session_pool
held-using = refl

dispose_example :
    (session_is_dead (token_error 0xb0) ≡ false
      → (dispose 9 (token_error 0xb0) ([] ++ []) using).idle ≡ using.idle ++ 9 ∷ [])
    × (session_is_dead (token_error 0xb0) ≡ true
        → (dispose 9 (token_error 0xb0) ([] ++ []) using).idle ≡ using.idle)
dispose_example = dispose_lem (pos 1) using [] [] 9 (token_error 0xb0) using-Reachable held-using
