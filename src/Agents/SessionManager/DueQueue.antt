-- ===== src/Agents/SessionManager/DueQueue.antt =====
-- The queue of expiry times: what `push` and `pop_due` do to it.
use acton_dx.Prelude.{
  ℕ, ◌≡◌, ◌≤◌, ◌<◌, ◌⊎◌, inl, inr, refl, true, List, [], ◌∷◌, string_discrete, arith, All,
}
use acton_dx.Prelude.Set
use acton_dx.Auth.Session.{SessionId}
use acton_dx.Agents.SessionManager.{push, pop_due}

-- The pair stands in the queue.
abbrev pub Queued : ℕ → SessionId → List (ℕ × SessionId) → Type 0
Queued e id [] = ⊥
Queued e id (f ∷ q) = ((f.0 ≡ e) × (f.1 ≡ id)) ⊎ Queued e id q

abbrev pub NotBefore : ℕ → List (ℕ × SessionId) → Type 0
NotBefore e = All (λ f. e ≤ f.0)

-- The queue is in the order of expiry.
abbrev pub IsSorted : List (ℕ × SessionId) → Type 0
IsSorted [] = Unit
IsSorted (f ∷ q) = NotBefore f.0 q × IsSorted q

NotBefore-le : {d e : ℕ} (q : List (ℕ × SessionId)) → d ≤ e → NotBefore e q → NotBefore d q
NotBefore-le [] h n = tt
NotBefore-le (f ∷ q) h n = (omega arith, NotBefore-le q h n.1)

NotBefore-push :
    (d : ℕ) (f : ℕ × SessionId) (q : List (ℕ × SessionId))
    → d ≤ f.0
    → NotBefore d q
    → NotBefore d (push f q)
unfolding push
NotBefore-push d f [] h n = (h, tt)
NotBefore-push d f (g ∷ q) h n = ground (arith, NotBefore-push d f q h n.1)

pub push-IsSorted :
    (f : ℕ × SessionId) (q : List (ℕ × SessionId)) → IsSorted q → IsSorted (push f q)
unfolding push
push-IsSorted f [] s = (tt, tt)
push-IsSorted f (g ∷ q) s =
    ground
      (arith, push-IsSorted f q s.1, NotBefore-push g.0 f q, NotBefore-le {d = f.0} {e = g.0} q)

pub Queued-push_self : (f : ℕ × SessionId) (q : List (ℕ × SessionId)) → Queued f.0 f.1 (push f q)
unfolding push
Queued-push_self f [] = inl (refl, refl)
Queued-push_self f (g ∷ q) = ground (arith, Queued-push_self f q)

pub Queued-push :
    (e : ℕ) (id : SessionId) (f : ℕ × SessionId) (q : List (ℕ × SessionId))
    → Queued e id q
    → Queued e id (push f q)
unfolding push
Queued-push e id f [] h = absurd h
Queued-push e id f (g ∷ q) h = ground (arith, Queued-push e id f q)

pub pop_due-IsSorted :
    (now : ℕ) (q : List (ℕ × SessionId)) → IsSorted q → IsSorted (pop_due now q).1
unfolding pop_due
pop_due-IsSorted now [] s = tt
pop_due-IsSorted now (f ∷ q) s = ground (arith, pop_due-IsSorted now q s.1)

NotBefore-Queued :
    (d e : ℕ) (id : SessionId) (q : List (ℕ × SessionId)) → NotBefore d q → Queued e id q → d ≤ e
NotBefore-Queued d e id [] n h = absurd h
NotBefore-Queued d e id (f ∷ q) n (inl here) = omega arith
NotBefore-Queued d e id (f ∷ q) n (inr there) = NotBefore-Queued d e id q n.1 there

-- A pair that is due is popped.
pub pop_due-due :
    (now e : ℕ) (id : SessionId) (q : List (ℕ × SessionId))
    → IsSorted q
    → Queued e id q
    → e ≤ now
    → Set.contains string_discrete id (pop_due now q).0 ≡ true
unfolding pop_due Set.contains
pop_due-due now e id [] s h due = absurd h
pop_due-due now e id (f ∷ q) s (inl here) due = ground arith
pop_due-due now e id (f ∷ q) s (inr there) due =
    ground (arith, NotBefore-Queued f.0 e id q s.0 there, pop_due-due now e id q s.1 there due)

-- A pair that is not due stays.
pub pop_due-later :
    (now e : ℕ) (id : SessionId) (q : List (ℕ × SessionId))
    → Queued e id q
    → now < e
    → Queued e id (pop_due now q).1
unfolding pop_due
pop_due-later now e id [] h late = h
pop_due-later now e id (f ∷ q) h late = ground (arith, pop_due-later now e id q)
