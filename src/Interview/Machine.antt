-- ===== src/Interview/Machine.antt =====
-- The session's lifecycle as a relation, and what `validate_transition` makes of it.
use interview_agent_py.Prelude.{ℕ, suc, ◌+◌, ◌≤◌, ◌≡◌, ◌≢◌, ◌↔◌, ◌⊎◌, inl, inr, refl, ap, arith}
use interview_agent_py.Errors.{ok}
use interview_agent_py.Interview.{
  SessionStatus, created, in_progress, completed, evaluated, status_eq, stage,
}
use interview_agent_py.Interview.State.{validate_transition}

-- The transitions that the module's documentation lists.
pub data Transition : SessionStatus → SessionStatus → Type 0 where
  begin : Transition created in_progress
  skip : Transition created completed
  finish : Transition in_progress completed

accepts : {s t : SessionStatus} → Transition s t → validate_transition s t ≡ ok tt
unfolding validate_transition
accepts begin = refl
accepts skip = refl
accepts finish = refl

accepted : (s t : SessionStatus) → validate_transition s t ≡ ok tt → Transition s t
unfolding validate_transition
accepted created in_progress h = begin
accepted created completed h = skip
accepted in_progress completed h = finish
accepted _ _ h = absurd (ground arith)

-- `validate_transition` accepts a change of status exactly when it is one of CREATED to
-- IN_PROGRESS, CREATED to COMPLETED and IN_PROGRESS to COMPLETED.
pub validate_transition-eq-ok_iff :
    (s t : SessionStatus) → (validate_transition s t ≡ ok tt) ↔ Transition s t
validate_transition-eq-ok_iff s t = (accepted s t, accepts)

-- A sequence of `n` accepted changes.
pub data Run (s : SessionStatus) : ℕ → SessionStatus → Type 0 where
  here : Run s 0 s
  next :
      {n : ℕ} {t u : SessionStatus} → Run s n t → validate_transition t u ≡ ok tt → Run s (suc n) u

stage_grows : {s t : SessionStatus} → Transition s t → (stage s + 1 ≤ stage t) × (stage t ≤ 2)
stage_grows begin = omega arith
stage_grows skip = omega arith
stage_grows finish = omega arith

Run-stage :
    {s t : SessionStatus} {n : ℕ} → Run s n t → (stage s + n ≤ stage t) × ((n ≡ 0) ⊎ (stage t ≤ 2))
Run-stage here = (omega arith, inl refl)
Run-stage (next {t} {u} r a) =
    let grows = stage_grows (accepted t u a) in (omega (arith, Run-stage r), inr grows.1)

-- Whatever changes are accepted in turn, there are at most two of them, and a session that has
-- moved at all is not EVALUATED by them: a status never comes back.
pub Run-bounded :
    {s t : SessionStatus} {n : ℕ}
    → Run s n t
    → (n ≤ 2) × ((n ≡ 0) ⊎ (t ≢ evaluated)) × ((n ≡ 0) ⊎ (s ≢ t))
Run-bounded here = (omega arith, inl refl, inl refl)
Run-bounded (next r a) =
    let h = Run-stage (next r a) in
    (
      omega (arith, h),
      inr (λ e. omega (arith, ap stage e, h)),
      inr (λ e. omega (arith, ap stage e, h)),
    )
