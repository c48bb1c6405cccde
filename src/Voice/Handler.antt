-- ===== src/Voice/Handler.antt =====
-- application/voice/ws_handler.py: what a connection does to the voice session, that is the status it
-- starts from, the saving of turns, the change of phase and the pause. `clock` is the handler's clock
-- in milliseconds, `now` the time in seconds; a database step that fails is only logged and left out.
pub mod Turns
pub mod Status
use interview_agent_py.Prelude.{
  ℕ, ◌+◌, ◌-◌, ◌*◌, ◌/◌, List, [], ◌∷◌, ◌++◌, Option, none, some, Bool, true, false, not, ◌&&◌,
  if◌then◌else◌, leb, length, Text, is_empty, nat_eq, ◌=?◌,
}
use interview_agent_py.Prelude.Dict.{get}
use interview_agent_py.Evaluation.Prompts.{VoiceMessage}
use interview_agent_py.Voice.{
  VoiceSessionStatus, in_progress, paused, voice_status_eq, InterviewPhase, intro, tech, project,
  hr, finished,
}
use interview_agent_py.Voice.Phase.{should_transition_to_next_phase, next_phase}
use interview_agent_py.Voice.Table.{
  VoiceSession, VoiceWorld, parse_cached_session, with_row, phase_value,
}
use interview_agent_py.Voice.Service.{paused_row}

-- The variables of a connection that decide on its session.
pub record Connection : Type 0 where
  pub current_phase : InterviewPhase
  pub history : List (Text × Text)
  pub phase_started_ms : ℕ
  pub phase_question_count : ℕ
  pub last_activity_ms : ℕ
  pub pause_warned : Bool

-- `_load_session_status`; the flag tells whether Redis works.
unfoldable pub load_session_status : Bool → ℕ → VoiceWorld → Option VoiceSessionStatus
load_session_status cache_works session_id w =
    let stored : Option VoiceSessionStatus = elim (get w.rows session_id) [
      | none ↦ none
      | some row ↦ some row.status
    ] in
    if cache_works
    then elim (get w.cache session_id) [
      | none ↦ stored
      | some raw ↦ some (parse_cached_session session_id raw).status
    ]
    else stored

-- What `run` does first: a close code, or the connection goes on.
pub data Admission : Type 0 where
  closed_with : ℕ → Admission
  admitted : Admission

unfoldable pub admit : Option VoiceSessionStatus → Admission
admit none = closed_with 4004
admit (some status) = if status =? in_progress then admitted else closed_with 4003

abbrev pub answer_with : Text → VoiceMessage → VoiceMessage
answer_with answer m = record m { user_recognized_text = some answer }

-- A question without an answer.
abbrev pub is_unanswered : VoiceMessage → Bool
is_unanswered m = elim m.user_recognized_text [
  | some answer ↦ false
  | none ↦ elim m.ai_generated_text [ none ↦ false | some question ↦ true ]
]

-- The answer goes to the last question without one; the messages are in the order of their numbers.
unfoldable pub fill_latest_unanswered : Text → List VoiceMessage → Option (List VoiceMessage)
fill_latest_unanswered answer [] = none
fill_latest_unanswered answer (m ∷ messages) = elim (fill_latest_unanswered answer messages) [
  | some filled ↦ some (m ∷ filled)
  | none ↦ if is_unanswered m then some (answer_with answer m ∷ messages) else none
]

abbrev pub new_message : ℕ → InterviewPhase → Option Text → Text → VoiceMessage
new_message sequence_num phase answer reply = record {
  sequence_num = sequence_num;
  phase = phase_value phase;
  ai_generated_text = some reply;
  user_recognized_text = answer;
}

unfoldable pub save_turn : InterviewPhase → Text → Text → List VoiceMessage → List VoiceMessage
unfolding fill_latest_unanswered
save_turn phase answer reply messages =
    let next_seq = length messages + 1 in
    if is_empty answer
    then messages ++ new_message next_seq phase none reply ∷ []
    else elim (fill_latest_unanswered answer messages) [
      | some filled ↦ filled ++ new_message next_seq phase none reply ∷ []
      | none ↦ messages ++ new_message next_seq phase (some answer) reply ∷ []
    ]

unfoldable pub persist_turn : ℕ → InterviewPhase → Text → Text → VoiceWorld → VoiceWorld
unfolding save_turn
persist_turn session_id phase answer reply w = elim (get w.rows session_id) [
  | none ↦ w
  | some row ↦
      with_row session_id (record row { messages = save_turn phase answer reply row.messages }) w
]

-- The opening question is saved for the first connection only.
unfoldable pub persist_opening : ℕ → InterviewPhase → Text → VoiceWorld → VoiceWorld
unfolding persist_turn
persist_opening session_id phase opening w =
    let first = persist_turn session_id phase [] opening w in
    if is_empty opening then w else elim (get w.rows session_id) [
      | none ↦ first
      | some row ↦ if is_empty row.messages then first else w
    ]

abbrev pub enabled_phases : VoiceSession → InterviewPhase → Bool
enabled_phases row intro = row.intro_enabled
enabled_phases row tech = row.tech_enabled
enabled_phases row project = row.project_enabled
enabled_phases row hr = row.hr_enabled
enabled_phases row finished = false

unfoldable pub maybe_transition_phase :
    ℕ → ℕ → ℕ → Connection × VoiceWorld → Connection × VoiceWorld
maybe_transition_phase session_id clock now (c, w) =
    let elapsed = (clock - c.phase_started_ms) / 1000 in
    if should_transition_to_next_phase c.current_phase elapsed c.phase_question_count
    then elim (get w.rows session_id) [
      | none ↦ (c, w)
      | some row ↦
          let nxt = next_phase c.current_phase (enabled_phases row) in
          (
            record c { current_phase = nxt; phase_started_ms = clock; phase_question_count = 0 },
            with_row session_id (record row { current_phase = nxt; updated_at = now }) w,
          )
    ]
    else (c, w)

-- The end of `_commit_turn`, with the stripped reply.
unfoldable pub finish_turn :
    ℕ → ℕ → ℕ → Text → Text → Connection × VoiceWorld → Connection × VoiceWorld
unfolding persist_turn maybe_transition_phase
finish_turn session_id clock now answer reply (c, w) =
    if is_empty reply
    then (c, w)
    else maybe_transition_phase session_id clock now (
      record c {
        history = c.history ++ (answer, reply) ∷ [];
        phase_question_count = c.phase_question_count + 1;
      },
      persist_turn session_id c.current_phase answer reply w,
    )

-- `_pause_session`: the status is written whatever it was, and the cache is left.
unfoldable pub pause_on_timeout : ℕ → ℕ → VoiceWorld → VoiceWorld
pause_on_timeout session_id now w = elim (get w.rows session_id) [
  | none ↦ w
  | some row ↦ with_row session_id (paused_row now row) w
]

abbrev pub pause_idle_timeout_seconds : ℕ
pause_idle_timeout_seconds = 5 * 60

abbrev pub pause_warning_seconds : ℕ
pause_warning_seconds = 270

-- Whether the connection is to be closed.
unfoldable pub check_pause_timeout :
    ℕ → ℕ → ℕ → Connection × VoiceWorld → Bool × Connection × VoiceWorld
unfolding pause_on_timeout
check_pause_timeout session_id clock now (c, w) =
    let elapsed_ms = clock - c.last_activity_ms in
    if leb (pause_idle_timeout_seconds * 1000) elapsed_ms
    then (true, c, pause_on_timeout session_id now w)
    else if leb (pause_warning_seconds * 1000) elapsed_ms && not c.pause_warned
    then (false, record c { pause_warned = true }, w)
    else (false, c, w)
