-- ===== src/Voice/Examples.antt =====
-- Concrete voice interviews.
use interview_agent_py.Prelude.{
  ◌≡◌, ◌≢◌, refl, Bool, true, false, arith, List, [], ◌∷◌, some, none, codes, strip, lstrip,
  is_space, contains, nat_eq,
}
use interview_agent_py.Prelude.Int.{pos}
use interview_agent_py.Prelude.Dict.{get}
use interview_agent_py.Tasks.{pending}
use interview_agent_py.Evaluation.Prompts.{build_voice_qa_records}
use interview_agent_py.Voice.Table.{
  VoiceSession, VoiceSessionHash, VoiceWorld, to_cache_snapshot, to_hash, load_session,
}
use interview_agent_py.Voice.Service.{
  CreateVoiceSessionRequest, determine_first_phase, new_session, ended, paused_row, resumed_row,
  end_session, pause_session, resume_session, delete_session, trigger_evaluation, body, perform,
  create_session,
}
use interview_agent_py.Voice.Service.Rows.{row_after, and_then, perform-row}
use interview_agent_py.Voice.Service.Final.{Kept, run, run-Kept}
use interview_agent_py.Voice.Service.Cached.{
  IsCoherent, perform-IsCoherent, create_session-IsCoherent,
}
use interview_agent_py.Voice.Handler.{
  load_session_status, admit, admitted, pause_on_timeout, save_turn,
}
use interview_agent_py.Voice.Handler.Status.{pause_on_timeout-admitted, pause_on_timeout-reopened}
use interview_agent_py.Voice.Handler.Turns.{
  Turn, save_turns, records_of, build_voice_qa_records-save_turns,
}
use interview_agent_py.Voice.Jobs.{pause_idle_voice_sessions}
use interview_agent_py.Voice.Jobs.Idle.{persist_turns, pause_idle-persist_turns}
use interview_agent_py.Voice.Dialogue.{merge_segments, should_commit, stream_reply, speak_text}
use interview_agent_py.Voice.Dialogue.Stream.{joined, stream_reply-speak_text}
use interview_agent_py.Errors.{ok, raise, bad_request}
use interview_agent_py.Voice.{paused, completed, InterviewPhase, intro, tech, hr, finished}
use interview_agent_py.Voice.State.{validate_transition, is_unfinished}
use interview_agent_py.Voice.Phase.{should_transition_to_next_phase, next_phase}

a_paused_interview_can_end : validate_transition paused completed ≡ ok tt
unfolding validate_transition
a_paused_interview_can_end = refl

-- An interview without the technical phase.
abbrev short : InterviewPhase → Bool
short tech = false
short p = true

no_technical_phase : next_phase intro short ≢ tech
unfolding next_phase
no_technical_phase e = ground arith

an_intro_of_900_seconds_is_over : should_transition_to_next_phase intro 900 0 ≡ true
unfolding should_transition_to_next_phase
an_intro_of_900_seconds_is_over = refl

a_short_talk_goes_on : should_transition_to_next_phase hr 299 4 ≡ false
unfolding should_transition_to_next_phase
a_short_talk_goes_on = refl

blank_segments_are_dropped : merge_segments (codes " a" ∷ codes "  " ∷ codes "b " ∷ []) ≡ codes "ab"
unfolding merge_segments strip lstrip is_space
blank_segments_are_dropped = refl

a_short_answer_waits : should_commit (codes "ok") 2499 ≡ false
unfolding should_commit
a_short_answer_waits = refl

stream_reply_example :
    stream_reply false [] [] (codes "hel" ∷ codes "lo! he" ∷ codes "re" ∷ [])
    ≡ speak_text (codes "hello! here")
unfolding joined
stream_reply_example =
    stream_reply-speak_text false (codes "hel" ∷ codes "lo! he" ∷ codes "re" ∷ [])

-- Two sessions: the first is over, the second in progress and cached.
abbrev request : CreateVoiceSessionRequest
request = record {
  role_type = codes "Java面试官";
  skill_id = codes "java-backend";
  difficulty = codes "mid";
  custom_jd_text = none;
  resume_id = none;
  intro_enabled = false;
  tech_enabled = true;
  project_enabled = true;
  hr_enabled = true;
  llm_provider = none;
  planned_duration = 30;
}

abbrev over : VoiceSession
over = ended 900 (new_session request 100)

abbrev live : VoiceSession
live = new_session request 1000

abbrev cached_live : VoiceSessionHash
cached_live = to_hash (to_cache_snapshot 2 live)

abbrev two_sessions : VoiceWorld
two_sessions = record {
  rows = (1, over) ∷ (2, live) ∷ [];
  next_id = 3;
  cache = (2, cached_live) ∷ [];
  tasks = 1 ∷ [];
}

the_first_enabled_phase : live.current_phase ≡ tech
unfolding determine_first_phase
the_first_enabled_phase = refl

a_finished_session_is_not_paused :
    (perform true 1 (pause_session 1100) two_sessions).0 ≡ raise bad_request
unfolding perform load_session body get validate_transition contains
a_finished_session_is_not_paused = refl

perform-row_example :
    get (perform true 2 (end_session 1600 none) two_sessions).1.rows 2
    ≡ some (record live {
      end_time = some 1600;
      current_phase = finished;
      status = completed;
      actual_duration = some (pos 600);
      evaluate_status = some pending;
      evaluate_error = none;
      updated_at = 1600;
    })
unfolding row_after and_then get is_unfinished
perform-row_example = perform-row true 2 2 (end_session 1600 none) two_sessions

run-Kept_example : Kept over (
    get
      (run
        ((true, 1, resume_session 1100)
          ∷ (false, 2, delete_session)
          ∷ (true, 1, trigger_evaluation 1200 (some (codes "full")))
          ∷ [])
        two_sessions).rows
      1)
unfolding get is_unfinished
run-Kept_example =
    run-Kept over 1
      ((true, 1, resume_session 1100)
        ∷ (false, 2, delete_session)
        ∷ (true, 1, trigger_evaluation 1200 (some (codes "full")))
        ∷ [])
      two_sessions refl refl

no_sessions : VoiceWorld
no_sessions = record { rows = []; next_id = 1; cache = []; tasks = [] }

no_sessions-IsCoherent : IsCoherent no_sessions
unfolding no_sessions get
no_sessions-IsCoherent i = tt

one_session-IsCoherent : IsCoherent (create_session true true request 5 no_sessions).1
one_session-IsCoherent = create_session-IsCoherent true request 5 no_sessions no_sessions-IsCoherent

perform-IsCoherent_example :
    IsCoherent
      (perform true 1 (pause_session 9) (create_session true true request 5 no_sessions).1).1
perform-IsCoherent_example =
    perform-IsCoherent 1 (pause_session 9) (create_session true true request 5 no_sessions).1
      one_session-IsCoherent

pause_on_timeout-reopened_example :
    get (perform true 1 (resume_session 1400) (pause_on_timeout 1 1300 two_sessions)).1.rows 1
    ≡ some (resumed_row 1400 (paused_row 1300 over))
unfolding get
pause_on_timeout-reopened_example = pause_on_timeout-reopened 1 1300 1400 over two_sessions refl

a_paused_session_is_admitted :
    admit (load_session_status true 2 (pause_on_timeout 2 1300 two_sessions)) ≡ admitted
unfolding get
a_paused_session_is_admitted =
    (pause_on_timeout-admitted 2 1300 live cached_live two_sessions refl refl refl).1

abbrev turns : List Turn
turns = (tech, codes "I am", codes "HashMap?") ∷ (tech, codes "a table", codes "JVM?") ∷ []

build_voice_qa_records-save_turns_example :
    build_voice_qa_records (save_turns turns (save_turn tech [] (codes "hello") []))
    ≡ records_of 1 tech (codes "hello") turns
unfolding strip lstrip is_space
build_voice_qa_records-save_turns_example =
    build_voice_qa_records-save_turns turns tech (codes "hello") (refl, refl)
      ((refl, refl), (refl, refl), ((refl, refl), (refl, refl), tt))

pause_idle-persist_turns_example :
    get (pause_idle_voice_sessions 1301 (persist_turns 2 turns two_sessions)).rows 2
    ≡ some (record live {
      status = paused;
      paused_at = some 1301;
      updated_at = 1301;
      messages = save_turns turns [];
    })
unfolding get
pause_idle-persist_turns_example =
    pause_idle-persist_turns 2 1301 turns live two_sessions refl refl (omega arith)
