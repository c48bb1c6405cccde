-- ===== src/Voice/Phase.antt =====
-- domain/services/voice_phase.py: when a phase of a voice interview ends, and which one is next.
-- Elapsed time is in whole seconds: the code compares a float with whole numbers from below, and so
-- does the number of seconds that are over.
use interview_agent_py.Prelude.{
  ℕ, suc, zero, ◌+◌, ◌≤◌, ◌<◌, ◌≡◌, ◌⊎◌, ◌≢◌, refl, List, [], ◌∷◌, Bool, true, false, ◌&&◌, Option,
  none, some, if◌then◌else◌, leb, ◌=?◌, drop, arith,
}
use interview_agent_py.Voice.{
  InterviewPhase, intro, tech, project, hr, finished, phase_number, phase_eq, phase_config,
}

abbrev pub phase_order : List InterviewPhase
phase_order = intro ∷ tech ∷ project ∷ hr ∷ []

unfoldable pub should_transition_to_next_phase : InterviewPhase → ℕ → ℕ → Bool
unfolding phase_config
should_transition_to_next_phase phase elapsed_seconds question_count = elim (phase_config phase) [
  | none ↦ false
  | some config ↦
      if leb config.max_duration_seconds elapsed_seconds
      then true
      else if leb config.max_questions question_count
      then true
      else leb config.suggested_duration_seconds elapsed_seconds
        && leb config.min_questions question_count
]

-- `_PHASE_ORDER.index(current)`; `none` stands for the `ValueError`.
index_of : InterviewPhase → List InterviewPhase → Option ℕ
index_of p [] = none
index_of p (q ∷ qs) =
    if p =? q then some 0 else elim (index_of p qs) [ none ↦ none | some i ↦ some (suc i) ]

first_enabled : (InterviewPhase → Bool) → List InterviewPhase → InterviewPhase
first_enabled enabled [] = finished
first_enabled enabled (p ∷ ps) = if enabled p then p else first_enabled enabled ps

-- `enabled` is membership in the set of enabled phases.
unfoldable pub next_phase : InterviewPhase → (InterviewPhase → Bool) → InterviewPhase
unfolding index_of first_enabled
next_phase current enabled = elim (index_of current phase_order) [
  | none ↦ finished
  | some start ↦ first_enabled enabled (drop (suc start) phase_order)
]

-- From any phase but the last, the next phase is a later one; it is enabled or COMPLETED; and a
-- phase `q` that stands between the two is not enabled.
pub next_phase_lem :
    (p q : InterviewPhase) (enabled : InterviewPhase → Bool)
    → p ≢ finished
    → (phase_number p < phase_number (next_phase p enabled))
      × ((next_phase p enabled ≡ finished) ⊎ (enabled (next_phase p enabled) ≡ true))
      × ((phase_number q ≤ phase_number p)
          ⊎ (phase_number (next_phase p enabled) ≤ phase_number q)
          ⊎ (enabled q ≡ false))
unfolding next_phase
next_phase_lem intro q enabled h = ground arith
next_phase_lem p q enabled h = ground arith

next_phase-finished : (enabled : InterviewPhase → Bool) → next_phase finished enabled ≡ finished
unfolding next_phase
next_phase-finished enabled = refl

-- `n` changes of phase in turn.
unfoldable pub advance : ℕ → InterviewPhase → (InterviewPhase → Bool) → InterviewPhase
advance zero p enabled = p
advance (suc n) p enabled = advance n (next_phase p enabled) enabled

-- Whatever phases are enabled, every interview is COMPLETED after at most four changes of phase, and
-- stays so.
pub advance-eq-finished :
    (n : ℕ) (p : InterviewPhase) (enabled : InterviewPhase → Bool)
    → 4 ≤ n + phase_number p
    → advance n p enabled ≡ finished
unfolding advance
advance-eq-finished zero finished enabled h = refl
advance-eq-finished zero p enabled h = absurd (omega arith)
advance-eq-finished (suc n) finished enabled h =
    rw next_phase-finished (advance-eq-finished n finished enabled (omega arith))
advance-eq-finished (suc n) p enabled h =
    advance-eq-finished n (next_phase p enabled) enabled
      (omega (arith, (next_phase_lem p p enabled (λ e. ground arith)).0))

-- A phase that should end stays so: with more time over and more questions asked the answer is
-- the same.
pub should_transition_mono :
    (p : InterviewPhase) (s t m n : ℕ)
    → s ≤ t
    → m ≤ n
    → should_transition_to_next_phase p s m ≡ true
    → should_transition_to_next_phase p t n ≡ true
unfolding should_transition_to_next_phase
should_transition_mono p s t m n hs hm h = ground arith

-- Every phase but the last is over after 900 seconds, and after 8 questions.
pub phase_ends :
    (p : InterviewPhase) (s n : ℕ)
    → p ≢ finished
    → (900 ≤ s) ⊎ (8 ≤ n)
    → should_transition_to_next_phase p s n ≡ true
unfolding should_transition_to_next_phase
phase_ends p s n h long = ground arith

-- No phase ends in its first 300 seconds before its fifth question.
pub phase_lasts :
    (p : InterviewPhase) (s n : ℕ) → s < 300 → n < 5 → should_transition_to_next_phase p s n ≡ false
unfolding should_transition_to_next_phase
phase_lasts p s n short few = ground arith
