-- ===== src/Jobs/Cancellation/Signals.antt =====
-- Which tokens are cancelled.
use acton_dx.Prelude.{
  ◌≡◌, ite, true, some, inl, inr, List, [], ◌∷◌, ℕ_discrete, arith, Option-cases,
}
use acton_dx.Prelude.Dict
use acton_dx.Prelude.Set
use acton_dx.Jobs.Queue.{JobId}
use acton_dx.Jobs.Cancellation.{
  TokenId, World, is_cancelled, cancel, register, unregister, cancel_job, cancel_each, Action,
  registers, unregisters, cancels, act, act_all,
}

cancel-cancelled :
    (t u : TokenId) (w : World)
    → is_cancelled t (cancel u w) ≡ ite (ℕ_discrete u t) true (is_cancelled t w)
unfolding is_cancelled cancel
cancel-cancelled t u w = Set.contains-insert ℕ_discrete t u w.signalled

-- No step takes a cancellation back.
cancel_keeps :
    (t u : TokenId) (w : World) → is_cancelled t w ≡ true → is_cancelled t (cancel u w) ≡ true
cancel_keeps t u w h = ground (arith, cancel-cancelled t u w)

pub cancel_self : (t : TokenId) (w : World) → is_cancelled t (cancel t w) ≡ true
cancel_self t w = ground (arith, cancel-cancelled t t w)

pub cancel_each_keeps :
    (t : TokenId) (es : List (JobId × TokenId)) (w : World)
    → is_cancelled t w ≡ true
    → is_cancelled t (cancel_each es w) ≡ true
unfolding cancel_each
cancel_each_keeps t [] w h = h
cancel_each_keeps t ((id, u) ∷ es) w h = cancel_each_keeps t es (cancel u w) (cancel_keeps t u w h)

pub cancel_each-lookup :
    (id : JobId) (t : TokenId) (es : List (JobId × TokenId)) (w : World)
    → Dict.lookup ℕ_discrete id es ≡ some t
    → is_cancelled t (cancel_each es w) ≡ true
unfolding cancel_each Dict.lookup
cancel_each-lookup id t [] w e = absurd (ground arith)
cancel_each-lookup id t ((j, u) ∷ es) w e = elim (ℕ_discrete j id) [
  | yes same ↦
      let it_is : u ≡ t = ground arith in
      rw it_is (cancel_each_keeps t es (cancel t w) (cancel_self t w))
  | no other ↦ cancel_each-lookup id t es (cancel u w) (ground arith)
]

act_keeps :
    (t : TokenId) (a : Action) (w : World)
    → is_cancelled t w ≡ true
    → is_cancelled t (act a w) ≡ true
unfolding act register unregister cancel_job
act_keeps t (registers id u) w h = unfold is_cancelled in h
act_keeps t (unregisters id) w h = unfold is_cancelled in h
act_keeps t (cancels id) w h = elim (Option-cases (Dict.lookup ℕ_discrete id w.tokens)) [
  | inl absent ↦ rw (act, cancel_job, absent) h
  | inr (u, present) ↦ rw (act, cancel_job, present) (cancel_keeps t u w h)
]

pub act_all_keeps :
    (t : TokenId) (actions : List Action) (w : World)
    → is_cancelled t w ≡ true
    → is_cancelled t (act_all actions w) ≡ true
unfolding act_all
act_all_keeps t [] w h = h
act_all_keeps t (a ∷ actions) w h = act_all_keeps t actions (act a w) (act_keeps t a w h)
