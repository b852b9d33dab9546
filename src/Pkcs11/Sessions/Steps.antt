-- ===== src/Pkcs11/Sessions/Steps.antt =====
-- encrypt/pkcs11/session.go: the interleavings of callers, and what each step keeps.
pub mod Bounds
use forge_go.Prelude.{
  ℕ, zero, suc, ◌+◌, ◌-◌, ◌≤◌, ◌<◌, ◌≡◌, refl, sym, ap, ◌∙◌, Bool, true, false, List, [], ◌∷◌, ◌++◌,
  Option, none, some, arith, ℤ, pos, negsuc, ltb, ◌==◌, if◌then◌else◌, length, length-append,
}
use forge_go.Pkcs11.Sessions.{
  SessionPool, OperationError, new_session_pool, enter, take_idle, opened, session_is_dead, dispose,
  leave, drain_one,
}

unfoldable pub count : ℕ → List ℕ → ℕ
count h [] = 0
count h (x ∷ xs) = (if x == h then 1 else 0) + count h xs

-- How many owners a session has: callers that hold it, and places in the idle queue.
unfoldable pub owners : ℕ → SessionPool → ℕ
owners h p = count h p.held + count h p.idle

-- The token gives out the handle of a session that is not open, and every session of the pool is.
pub data Reachable (size : ℤ) : SessionPool → Type 0 where
  fresh_pool : Reachable size (new_session_pool size)
  enters : (p q : SessionPool) → enter p ≡ some q → Reachable size p → Reachable size q
  takes :
      (p : SessionPool) (n : ℕ)
      → p.entering ≡ suc n
      → Reachable size p
      → Reachable size (take_idle p)
  opens :
      (p : SessionPool) (n session : ℕ)
      → p.opening ≡ suc n
      → owners session p ≡ 0
      → Reachable size p
      → Reachable size (opened (some session) p)
  fails :
      (p : SessionPool) (n : ℕ)
      → p.opening ≡ suc n
      → Reachable size p
      → Reachable size (opened none p)
  disposes :
      (p : SessionPool) (before after : List ℕ) (session : ℕ) (e : OperationError)
      → p.held ≡ before ++ (session ∷ after)
      → Reachable size p
      → Reachable size (dispose session e (before ++ after) p)
  leaves :
      (p : SessionPool) (n : ℕ) → p.leaving ≡ suc n → Reachable size p → Reachable size (leave p)
  drains : (p : SessionPool) → Reachable size p → Reachable size (drain_one p)

pub record IsBounded (p : SessionPool) : Type 0 where
  pub inside : p.sem ≡ p.entering + p.opening + length p.held + p.leaving
  pub capacity : p.sem ≤ p.size
  pub sessions : length p.idle + length p.held + p.opening ≤ p.size
  pub exclusive : (h : ℕ) → owners h p ≤ 1

count-append : (h : ℕ) (xs ys : List ℕ) → count h (xs ++ ys) ≡ count h xs + count h ys
unfolding count
count-append h [] ys = omega arith
count-append h (x ∷ xs) ys = omega (arith, count-append h xs ys)

pub new_session_pool-IsBounded : (size : ℤ) → IsBounded (new_session_pool size)
unfolding new_session_pool owners count
new_session_pool-IsBounded size = record {
  inside = omega arith;
  capacity = omega arith;
  sessions = omega arith;
  exclusive = λ h. omega arith;
}

pub enter-IsBounded : (p q : SessionPool) → enter p ≡ some q → IsBounded p → IsBounded q
unfolding enter owners
enter-IsBounded p q e b = record {
  inside = ground (arith, b.inside);
  capacity = ground (arith, b.capacity);
  sessions = ground (arith, b.sessions);
  exclusive = λ h. ground (arith, b.exclusive h);
}

pub take_idle-IsBounded :
    (p : SessionPool) (n : ℕ) → p.entering ≡ suc n → IsBounded p → IsBounded (take_idle p)
unfolding take_idle owners count
take_idle-IsBounded p n e b = record {
  inside = ground (arith, b.inside);
  capacity = ground (arith, b.capacity);
  sessions = ground (arith, b.sessions, b.inside, b.capacity);
  exclusive = λ h. ground (arith, b.exclusive h);
}

pub opened-IsBounded :
    (p : SessionPool) (n session : ℕ)
    → p.opening ≡ suc n
    → owners session p ≡ 0
    → IsBounded p
    → IsBounded (opened (some session) p)
unfolding opened owners count
opened-IsBounded p n session e new b = record {
  inside = ground (arith, b.inside);
  capacity = b.capacity;
  sessions = ground (arith, b.sessions);
  exclusive = λ h. ground (arith, b.exclusive h, new);
}

pub failed-IsBounded :
    (p : SessionPool) (n : ℕ) → p.opening ≡ suc n → IsBounded p → IsBounded (opened none p)
unfolding opened owners
failed-IsBounded p n e b = record {
  inside = ground (arith, b.inside);
  capacity = ground (arith, b.capacity);
  sessions = ground (arith, b.sessions);
  exclusive = b.exclusive;
}

held_before :
    (ts before after : List ℕ) (x : ℕ)
    → ts ≡ before ++ (x ∷ after)
    → length ts ≡ length (before ++ after) + 1
held_before ts before after x e =
    ap length e ∙ omega (arith, length-append before (x ∷ after), length-append before after)

count_before :
    (ts before after : List ℕ) (x h : ℕ)
    → ts ≡ before ++ (x ∷ after)
    → count h ts ≡ count h (before ++ after) + (if x == h then 1 else 0)
unfolding count
count_before ts before after x h e =
    ap (count h) e ∙ omega (arith, count-append h before (x ∷ after), count-append h before after)

pub dispose-IsBounded :
    (p : SessionPool) (before after : List ℕ) (session : ℕ) (e : OperationError)
    → p.held ≡ before ++ (session ∷ after)
    → IsBounded p
    → IsBounded (dispose session e (before ++ after) p)
unfolding dispose owners count
dispose-IsBounded p before after session e k b = record {
  inside = ground (arith, b.inside, held_before p.held before after session k);
  capacity = ground (arith, b.capacity);
  sessions = ground (
    arith,
    b.sessions,
    held_before p.held before after session k,
    length-append p.idle (session ∷ []),
  );
  exclusive = λ h. ground (
    arith,
    b.exclusive h,
    count_before p.held before after session h k,
    count-append h p.idle (session ∷ []),
  );
}
