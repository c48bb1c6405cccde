-- ===== src/Voice/Handler/Turns.antt =====
-- The messages of an interview after any turns, and the records that are evaluated.
use mathlib.Core.List.{append_assoc}
use interview_agent_py.Prelude.{
  ℕ, ◌+◌, ◌≡◌, refl, ap, ◌∙◌, List, [], ◌∷◌, ◌++◌, none, some, false, length, length-append, Text,
  is_empty, strip, arith,
}
use interview_agent_py.Evaluation.{QaRecord}
use interview_agent_py.Evaluation.Prompts.{VoiceMessage, build_voice_qa_records, stripped_answer}
use interview_agent_py.Voice.{InterviewPhase}
use interview_agent_py.Voice.Table.{phase_value}
use interview_agent_py.Voice.Handler.{answer_with, fill_latest_unanswered, new_message, save_turn}

-- A turn: the phase in which it ends, the answer, and the reply, which is the next question.
abbrev pub Turn : Type 0
Turn = InterviewPhase × Text × Text

-- The turns are saved one after the other.
unfoldable pub save_turns : List Turn → List VoiceMessage → List VoiceMessage
save_turns [] messages = messages
save_turns ((phase, answer, reply) ∷ turns) messages =
    save_turns turns (save_turn phase answer reply messages)

-- A text as the handler has it: not empty and without space around it.
abbrev pub IsTrimmed : Text → Type 0
IsTrimmed s = (is_empty s ≡ false) × (strip s ≡ s)

abbrev pub AllTrimmed : List Turn → Type 0
AllTrimmed [] = Unit
AllTrimmed ((phase, answer, reply) ∷ turns) = IsTrimmed answer × IsTrimmed reply × AllTrimmed turns

-- The records of an interview from the question `number` on: each question has the answer that
-- followed it, and the last one has none.
unfoldable pub records_of : ℕ → InterviewPhase → Text → List Turn → List QaRecord
records_of number phase question [] =
    (record {
      question_index = number;
      question = question;
      category = phase_value phase;
      user_answer = none;
    })
    ∷ []
records_of number phase question ((next_phase, answer, reply) ∷ turns) =
    (record {
      question_index = number;
      question = question;
      category = phase_value phase;
      user_answer = some answer;
    })
    ∷ records_of (number + 1) next_phase reply turns

abbrev asked : ℕ → InterviewPhase → Text → VoiceMessage
asked number phase question = new_message number phase none question

abbrev answered : ℕ → InterviewPhase → Text → Text → VoiceMessage
answered number phase question answer = answer_with answer (asked number phase question)

unfoldable messages_of : ℕ → InterviewPhase → Text → List Turn → List VoiceMessage
messages_of number phase question [] = asked number phase question ∷ []
messages_of number phase question ((next_phase, answer, reply) ∷ turns) =
    answered number phase question answer ∷ messages_of (number + 1) next_phase reply turns

fill_latest_unanswered-last :
    (answer : Text) (before : List VoiceMessage) (number : ℕ) (phase : InterviewPhase)
    (question : Text)
    → fill_latest_unanswered answer (before ++ asked number phase question ∷ [])
      ≡ some (before ++ answered number phase question answer ∷ [])
unfolding fill_latest_unanswered
fill_latest_unanswered-last answer [] number phase question = refl
fill_latest_unanswered-last answer (m ∷ before) number phase question =
    rw (fill_latest_unanswered-last answer before number phase question, fill_latest_unanswered)
      refl

save_turn-next :
    (before : List VoiceMessage) (number : ℕ) (phase next_phase : InterviewPhase)
    (question answer reply : Text)
    → is_empty answer ≡ false
    → length before + 1 ≡ number
    → save_turn next_phase answer reply (before ++ asked number phase question ∷ [])
      ≡ (before ++ answered number phase question answer ∷ [])
        ++ asked (number + 1) next_phase reply ∷ []
unfolding save_turn
save_turn-next before number phase next_phase question answer reply given counted =
    let next : length (before ++ asked number phase question ∷ []) + 1 ≡ number + 1 =
      omega (arith, length-append before (asked number phase question ∷ [])) in
    rw (save_turn, given, fill_latest_unanswered-last answer before number phase question, next)
      refl

save_turns-messages_of :
    (turns : List Turn) (before : List VoiceMessage) (number : ℕ) (phase : InterviewPhase)
    (question : Text)
    → length before + 1 ≡ number
    → AllTrimmed turns
    → save_turns turns (before ++ asked number phase question ∷ [])
      ≡ before ++ messages_of number phase question turns
unfolding save_turns messages_of
save_turns-messages_of [] before number phase question counted trimmed = refl
save_turns-messages_of ((next_phase, answer, reply) ∷ turns) before number phase question counted
      trimmed =
    let filled = before ++ answered number phase question answer ∷ [] in
    ap (save_turns turns)
      (save_turn-next before number phase next_phase question answer reply trimmed.0.0 counted)
    ∙ save_turns-messages_of turns filled (number + 1) next_phase reply
        (omega (arith, length-append before (answered number phase question answer ∷ []), counted))
        trimmed.2
    ∙ append_assoc before (answered number phase question answer ∷ [])
        (messages_of (number + 1) next_phase reply turns)

build_voice_qa_records-messages_of :
    (turns : List Turn) (number : ℕ) (phase : InterviewPhase) (question : Text)
    → IsTrimmed question
    → AllTrimmed turns
    → build_voice_qa_records (messages_of number phase question turns)
      ≡ records_of number phase question turns
unfolding build_voice_qa_records stripped_answer messages_of records_of
build_voice_qa_records-messages_of [] number phase question q trimmed = rw (q.1, q.0) refl
build_voice_qa_records-messages_of ((next_phase, answer, reply) ∷ turns) number phase question q
      trimmed =
    let rest =
      build_voice_qa_records-messages_of turns (number + 1) next_phase reply trimmed.1 trimmed.2 in
    rw (q.1, q.0, trimmed.0.1, trimmed.0.0, rest) refl

-- The opening is saved in an empty table and then any turns: the evaluation is given one record for
-- each question, numbered from 1 in the phase in which it was asked, with the answer that followed
-- it, and without an answer for the last one. The texts are taken to be trimmed and not empty.
pub build_voice_qa_records-save_turns :
    (turns : List Turn) (phase : InterviewPhase) (opening : Text)
    → IsTrimmed opening
    → AllTrimmed turns
    → build_voice_qa_records (save_turns turns (save_turn phase [] opening []))
      ≡ records_of 1 phase opening turns
unfolding save_turn
build_voice_qa_records-save_turns turns phase opening q trimmed =
    ap build_voice_qa_records (save_turns-messages_of turns [] 1 phase opening refl trimmed)
    ∙ build_voice_qa_records-messages_of turns 1 phase opening q trimmed
