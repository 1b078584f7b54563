-- ===== src/OAuth2/Agent/Tokens.antt =====
-- Which tokens the agent accepts.
use acton_dx.Prelude.{
  ℕ, ◌≡◌, ◌≤◌, ◌<◌, ◌∙◌, inl, inr, refl, ite, if_pos, if_neg, Option, none, some, List, [], ◌∷◌,
  String, string_discrete, ltb, not, ◌&&◌, arith, All, Option-cases,
}
use acton_dx.Prelude.Dict
use acton_dx.Prelude.Dict.{option_filter}
use acton_dx.OAuth2.Agent.{
  OAuthState, OAuth2Agent, generate, is_expired, empty, cleanup_expired, generate_state,
  validate_state, remove_state, Message, generates, validates, removes, cleans, step, run,
}

-- Each key stands once, and each message keeps it so.
abbrev pub IsKeyed : OAuth2Agent → Type 0
IsKeyed m = Dict.Distinct string_discrete m.states

step-IsKeyed : (c : ℕ × ℕ × Message) (m : OAuth2Agent) → IsKeyed m → IsKeyed (step c m)
unfolding step generate_state validate_state cleanup_expired remove_state generate
step-IsKeyed (now, later, generates fresh provider) m d =
    Dict.Distinct-insert string_discrete fresh (generate later fresh provider) _
      (Dict.Distinct-retain string_discrete (λ s. ltb now s.expires_at) m.states d)
step-IsKeyed (now, later, validates token) m d =
    Dict.Distinct-retain string_discrete (λ s. ltb now s.expires_at) m.states d
step-IsKeyed (now, later, removes token) m d = Dict.Distinct-remove string_discrete token m.states d
step-IsKeyed (now, later, cleans) m d =
    Dict.Distinct-retain string_discrete (λ s. ltb now s.expires_at) m.states d

run-IsKeyed : (cs : List (ℕ × ℕ × Message)) (m : OAuth2Agent) → IsKeyed m → IsKeyed (run cs m)
unfolding run
run-IsKeyed [] m d = d
run-IsKeyed (c ∷ cs) m d = run-IsKeyed cs (step c m) (step-IsKeyed c m d)

lookup-cleanup_expired :
    (now : ℕ) (t : String) (m : OAuth2Agent)
    → IsKeyed m
    → Dict.lookup string_discrete t (cleanup_expired now m).states
      ≡ option_filter (λ s. ltb now s.expires_at) (Dict.lookup string_discrete t m.states)
unfolding cleanup_expired
lookup-cleanup_expired now t m d =
    Dict.lookup-retain string_discrete t (λ s. ltb now s.expires_at) m.states d

-- What a message makes of the state that should be accepted under a token: generating the token
-- gives it, removing it takes it away.
unfoldable pub issue : String → ℕ × ℕ × Message → Option OAuthState → Option OAuthState
unfolding generate
issue t (now, later, generates fresh provider) o =
    ite (string_discrete fresh t) (some (generate later fresh provider)) o
issue t (now, later, validates token) o = o
issue t (now, later, removes token) o = ite (string_discrete token t) none o
issue t (now, later, cleans) o = o

unfoldable pub issued : String → List (ℕ × ℕ × Message) → Option OAuthState → Option OAuthState
issued t [] o = o
issued t (c ∷ cs) o = issued t cs (issue t c o)

-- Each message is handled at or before `end`, by its first reading of the clock.
abbrev pub Until : ℕ → List (ℕ × ℕ × Message) → Type 0
Until end = All (λ c. c.0 ≤ end)

abbrev fresh_at : ℕ → Option OAuthState → Option OAuthState
fresh_at now = option_filter (λ s. ltb now s.expires_at)

-- What is stored under `t` and not expired at `end` is what `o` says.
record Agrees (end : ℕ) (t : String) (m : OAuth2Agent) (o : Option OAuthState) : Type 0 where
  pub keyed : IsKeyed m
  pub same : fresh_at end (Dict.lookup string_discrete t m.states) ≡ fresh_at end o

cleanup_expired-Agrees :
    (now end : ℕ) (t : String) (m : OAuth2Agent) (o : Option OAuthState)
    → now ≤ end
    → Agrees end t m o
    → fresh_at end (Dict.lookup string_discrete t (cleanup_expired now m).states) ≡ fresh_at end o
cleanup_expired-Agrees now end t m o h a =
    elim (Option-cases (Dict.lookup string_discrete t m.states)) [
      | inl absent ↦ ground (arith, lookup-cleanup_expired now t m a.keyed, a.same)
      | inr (s, present) ↦ ground (arith, lookup-cleanup_expired now t m a.keyed, a.same)
    ]

step-Agrees :
    (end : ℕ) (t : String) (c : ℕ × ℕ × Message) (m : OAuth2Agent) (o : Option OAuthState)
    → c.0 ≤ end
    → Agrees end t m o
    → Agrees end t (step c m) (issue t c o)
unfolding step generate_state validate_state remove_state issue generate
step-Agrees end t (now, later, generates fresh provider) m o h a = record {
  keyed = step-IsKeyed (now, later, generates fresh provider) m a.keyed;
  same =
      let cleaned = cleanup_expired-Agrees now end t m o h a in
      let stored =
        Dict.lookup-insert string_discrete t fresh (generate later fresh provider)
          (cleanup_expired now m).states in
      elim (string_discrete fresh t) [
        | yes e ↦
            rw (
              stored,
              issue,
              if_pos (string_discrete fresh t) e,
              if_pos (string_discrete fresh t) e,
            )
        | no n ↦
            rw
              (
                stored,
                issue,
                if_neg (string_discrete fresh t) n,
                if_neg (string_discrete fresh t) n,
              )
              cleaned
      ];
}
step-Agrees end t (now, later, validates token) m o h a = record {
  keyed = step-IsKeyed (now, later, validates token) m a.keyed;
  same = cleanup_expired-Agrees now end t m o h a;
}
step-Agrees end t (now, later, removes token) m o h a = record {
  keyed = step-IsKeyed (now, later, removes token) m a.keyed;
  same = ground (arith, Dict.lookup-remove string_discrete t token m.states, a.same);
}
step-Agrees end t (now, later, cleans) m o h a = record {
  keyed = step-IsKeyed (now, later, cleans) m a.keyed;
  same = cleanup_expired-Agrees now end t m o h a;
}

run-Agrees :
    (end : ℕ) (t : String) (cs : List (ℕ × ℕ × Message)) (m : OAuth2Agent) (o : Option OAuthState)
    → Until end cs
    → Agrees end t m o
    → Agrees end t (run cs m) (issued t cs o)
unfolding run issued
run-Agrees end t [] m o u a = a
run-Agrees end t (c ∷ cs) m o u a =
    run-Agrees end t cs (step c m) (issue t c o) u.1 (step-Agrees end t c m o u.0 a)

empty-Agrees : (end : ℕ) (t : String) → Agrees end t empty none
unfolding empty Dict.lookup
empty-Agrees end t = record { keyed = tt; same = refl }

-- In any history of an agent up to a time, a token is accepted at that time exactly if a message
-- generated it, none removed it since, and it has not expired: the answer is the state that was
-- generated last, with its provider.
pub validate_state-issued :
    (cs : List (ℕ × ℕ × Message)) (now later : ℕ) (t : String)
    → Until now cs
    → (validate_state now later t (run cs empty)).1
      ≡ option_filter (λ s. ltb now s.expires_at && not (ltb s.expires_at later)) (issued t cs none)
unfolding validate_state is_expired
validate_state-issued cs now later t u =
    let a = run-Agrees now t cs empty none u (empty-Agrees now t) in
    let stored = lookup-cleanup_expired now t (run cs empty) a.keyed ∙ a.same in
    elim (Option-cases (issued t cs none)) [
      | inl absent ↦ rw (validate_state, stored, absent)
      | inr (s, present) ↦ rw (validate_state, stored, present) (ground arith)
    ]

-- In any history of an agent, a token that was just accepted is accepted again, until it expires, if
-- no removal comes between: validation alone does not use it up.
validate_state-again :
    (cs : List (ℕ × ℕ × Message)) (now later again finally : ℕ) (t : String) (s : OAuthState)
    → (validate_state now later t (run cs empty)).1 ≡ some s
    → again < s.expires_at
    → finally ≤ s.expires_at
    → (validate_state again finally t (validate_state now later t (run cs empty)).0).1 ≡ some s
unfolding validate_state is_expired empty step
validate_state-again cs now later again finally t s accepted before until =
    let kept = step-IsKeyed (now, later, cleans) (run cs empty) (run-IsKeyed cs empty tt) in
    let second = lookup-cleanup_expired again t (cleanup_expired now (run cs empty)) kept in
    elim (Option-cases
      (Dict.lookup string_discrete t (cleanup_expired now (run cs empty)).states)) [
        | inl absent ↦ ground (arith, second)
        | inr (found, present) ↦ ground (arith, second)
      ]
