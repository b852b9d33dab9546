-- ===== src/Pkcs11/Sessions.antt =====
-- encrypt/pkcs11/session.go: the pool of exclusive sessions of one token. The two channels are the
-- count of the semaphore and the queue of idle sessions; a caller of `acquire` is behind the
-- semaphore, or opening a session, or it holds one, and a caller of `release` may have disposed of
-- its session and not yet left the semaphore. The token, which opens and closes sessions, is
-- outside of it: a session is its handle.
pub mod Steps
pub mod Tests
use forge_go.Prelude.{
  ℕ, zero, suc, ◌+◌, ◌-◌, Bool, true, false, ◌||◌, List, [], ◌∷◌, ◌++◌, Option, none, some, ℤ, pos,
  negsuc, ltb, ◌==◌, if◌then◌else◌, length,
}

pub record SessionPool : Type 0 where
  pub size : ℕ
  pub sem : ℕ
  pub idle : List ℕ
  pub entering : ℕ
  pub opening : ℕ
  pub held : List ℕ
  pub leaving : ℕ

abbrev pub at_least_one : ℤ → ℕ
at_least_one (pos zero) = 1
at_least_one (pos (suc n)) = suc n
at_least_one (negsuc _) = 1

unfoldable pub new_session_pool : ℤ → SessionPool
new_session_pool size = record {
  size = at_least_one size;
  sem = 0;
  idle = [];
  entering = 0;
  opening = 0;
  held = [];
  leaving = 0;
}

-- The first `select` of `acquire`; `none` while the semaphore is full.
pub enter : SessionPool → Option SessionPool
enter p =
    if ltb p.sem p.size
    then some (record p { sem = p.sem + 1; entering = p.entering + 1 })
    else none

-- The second `select` of `acquire`: an idle session, or the way to `OpenSession`.
pub take_idle : SessionPool → SessionPool
take_idle p = elim p.idle [
  | [] ↦ record p { entering = p.entering - 1; opening = p.opening + 1 }
  | session ∷ rest ↦ record p { idle = rest; entering = p.entering - 1; held = session ∷ p.held }
]

-- The end of `acquire`, with the session that the token has opened; `none` is its error.
pub opened : Option ℕ → SessionPool → SessionPool
opened (some session) p = record p { opening = p.opening - 1; held = session ∷ p.held }
opened none p = record p { opening = p.opening - 1; sem = p.sem - 1 }

-- The error of an operation: none, the token's with its code, or another one.
pub data OperationError : Type 0 where
  no_error other_error : OperationError
  token_error : ℕ → OperationError

pub session_is_dead : OperationError → Bool
session_is_dead no_error = false
session_is_dead other_error = false
session_is_dead (token_error code) =
    code == 0xb3
    || code == 0xb0
    || code == 0x32
    || code == 0xe0
    || code == 0x30
    || code == 0x190
    || code == 0x101

-- The body of `release` for a session that was held; what is left is held by others. A session that
-- does not go to the idle ones is closed.
pub dispose : ℕ → OperationError → List ℕ → SessionPool → SessionPool
dispose session op_error others p =
    let q : SessionPool = record p { held = others; leaving = p.leaving + 1 } in
    if session_is_dead op_error
    then q
    else if ltb (length p.idle) p.size
    then record q { idle = p.idle ++ session ∷ [] }
    else q

-- The deferred receive of `release`.
pub leave : SessionPool → SessionPool
leave p = record p { sem = p.sem - 1; leaving = p.leaving - 1 }

-- One round of `drain`, which closes the first idle session.
pub drain_one : SessionPool → SessionPool
drain_one p = elim p.idle [ [] ↦ p | _ ∷ rest ↦ record p { idle = rest } ]
