-- ===== src/Pkcs11/Sessions/Steps/Bounds.antt =====
-- encrypt/pkcs11/session.go: the bound on open sessions, and who owns one.
use forge_go.Prelude.{ℕ, suc, ◌+◌, ◌≤◌, ◌≡◌, true, false, List, [], ◌∷◌, ◌++◌, arith, ℤ, length}
use forge_go.Pkcs11.Sessions.{
  SessionPool, OperationError, session_is_dead, dispose, leave, drain_one,
}
use forge_go.Pkcs11.Sessions.Steps.{
  count, owners, Reachable, fresh_pool, enters, takes, opens, fails, disposes, leaves, drains,
  IsBounded, new_session_pool-IsBounded, enter-IsBounded, take_idle-IsBounded, opened-IsBounded,
  failed-IsBounded, dispose-IsBounded,
}

leave-IsBounded : (p : SessionPool) (n : ℕ) → p.leaving ≡ suc n → IsBounded p → IsBounded (leave p)
unfolding leave owners
leave-IsBounded p n e b = record {
  inside = ground (arith, b.inside);
  capacity = ground (arith, b.capacity);
  sessions = b.sessions;
  exclusive = b.exclusive;
}

drain_one-IsBounded : (p : SessionPool) → IsBounded p → IsBounded (drain_one p)
unfolding drain_one owners count
drain_one-IsBounded p b = record {
  inside = ground (arith, b.inside);
  capacity = ground (arith, b.capacity);
  sessions = ground (arith, b.sessions);
  exclusive = λ h. ground (arith, b.exclusive h);
}

module _ (size : ℤ) where
  Reachable-IsBounded : (p : SessionPool) → Reachable size p → IsBounded p
  Reachable-IsBounded _ fresh_pool = new_session_pool-IsBounded size
  Reachable-IsBounded _ (enters p q e r) = enter-IsBounded p q e (Reachable-IsBounded p r)
  Reachable-IsBounded _ (takes p n e r) = take_idle-IsBounded p n e (Reachable-IsBounded p r)
  Reachable-IsBounded _ (opens p n s e f r) = opened-IsBounded p n s e f (Reachable-IsBounded p r)
  Reachable-IsBounded _ (fails p n e r) = failed-IsBounded p n e (Reachable-IsBounded p r)
  Reachable-IsBounded _ (disposes p before after s e h r) =
      dispose-IsBounded p before after s e h (Reachable-IsBounded p r)
  Reachable-IsBounded _ (leaves p n e r) = leave-IsBounded p n e (Reachable-IsBounded p r)
  Reachable-IsBounded _ (drains p r) = drain_one-IsBounded p (Reachable-IsBounded p r)

  -- In every interleaving of calls of `acquire`, `release` and `drain`: the sessions that are idle,
  -- held or being opened are never more than the size of the pool, a session is held by at most one
  -- caller and not idle at the same time, and the semaphore counts the callers behind it, so
  -- the deferred receive of `release` never waits.
  pub session_pool_lem :
      (p : SessionPool)
      → Reachable size p
      → (length p.idle + length p.held + p.opening ≤ p.size)
        × ((h : ℕ) → owners h p ≤ 1)
        × (p.sem ≤ p.size)
        × (p.sem ≡ p.entering + p.opening + length p.held + p.leaving)
  session_pool_lem p r =
      let b = Reachable-IsBounded p r in (b.sessions, b.exclusive, b.capacity, b.inside)

  -- `release` puts every session that is alive back: the case of a full queue of idle sessions, in
  -- which it would close the session, is never met; and it never puts a dead one back.
  pub dispose_lem :
      (p : SessionPool) (before after : List ℕ) (session : ℕ) (e : OperationError)
      → Reachable size p
      → p.held ≡ before ++ (session ∷ after)
      → (session_is_dead e ≡ false
          → (dispose session e (before ++ after) p).idle ≡ p.idle ++ session ∷ [])
        × (session_is_dead e ≡ true → (dispose session e (before ++ after) p).idle ≡ p.idle)
  unfolding dispose
  dispose_lem p before after session e r k = (
    (λ alive.
        ground (arith, (Reachable-IsBounded p r).sessions, one_held p.held before after session k)),
    (λ dead. rw dead),
  )
    where
      one_held : (ts before after : List ℕ) (x : ℕ) → ts ≡ before ++ (x ∷ after) → 1 ≤ length ts
      one_held ts [] after x e = rw e (omega arith)
      one_held ts (y ∷ before) after x e = rw e (omega arith)
