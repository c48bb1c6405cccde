-- ===== src/Lib.antt =====
-- The correctness of interview-agent-py, an interview assistant: text interviews and voice interviews
-- are asked from skills, answered, and evaluated by a language model.
--
-- Parts, and the files that model them (paths from the repository's root):
-- Interview: backend/app/domain/entities/interview.py (Interview) and
--   domain/services/session_state.py (Interview/State), which decides which changes of a session's
--   status are accepted; domain/services/question_codec.py (Interview/Codec): the JSON text of a
--   session's questions. Interview/Numbered says how the questions of a session are ordered.
-- Questions: domain/services/question_gen.py (Questions, Questions/History) and
--   application/interview/question_service.py (Questions/Service): the questions of an interview
--   from what the models answered.
-- Bank: domain/services/question_bank.py (Bank, Bank/Capacity, Bank/References): interviews
--   assembled at random from a bank of questions, and the bank's answers in the evaluation; and
--   application/knowledgebase/interview_service.py (Bank/Service), which makes a session of them.
-- Retrieval: domain/services/rag_query.py (Retrieval, Retrieval/Merge, Retrieval/Context): what is
--   done before and after the search of a knowledge base.
-- Voice: domain/entities/voice_interview.py, domain/services/voice_session_state.py (Voice/State)
--   and voice_phase.py (Voice/Phase); domain/services/voice_dialogue.py and the sentences that
--   application/voice/ws_handler.py has spoken (Voice/Dialogue). Sessions with their messages, the
--   cache and the stream of evaluation tasks (Voice/Table) change by application/voice/service.py
--   (Voice/Service, with voice_session_cache.py and the repository), by the turns, timeouts and ends
--   of ws_handler.py (Voice/Handler) and by infrastructure/scheduler/jobs.py (Voice/Jobs).
-- Skill: domain/entities/skill.py and domain/services/skill_service.py: how many questions each
--   category of a skill gets (Skill/Allocation), and skills from a job description (Skill/Custom).
-- Evaluation: domain/entities/evaluation.py, domain/services/evaluation.py (Evaluation/Batches,
--   Evaluation/Items, Evaluation/Report) and graphs/evaluation.py (Evaluation/Graph): the answers
--   are split into batches, each is put to the model, and the results are merged into one report.
--   The texts of its prompts and domain/services/voice_qa_adapter.py are in Evaluation/Prompts.
-- Generation: application/knowledgebase/generation_state_service.py (Generation/Service): the state
--   of the generation of questions for a knowledge base, one atomic step for each method.
-- Documents: the tables of knowledge bases, documents and vectors, with
--   domain/services/kb_document.py and infrastructure/vector/repository.py;
--   application/knowledgebase/service.py (Documents/Service) changes them, and
--   infrastructure/tasks/kb_vectorize_consumer.py (Documents/Vectorize) stores the vectors of a
--   document in two commits.
-- Adaptive: domain/services/adaptive_strategy.py (Adaptive/Strategy) and the tools of
--   graphs/adaptive_interview.py (Adaptive/Tools): an interview that an agent leads. Adaptive/Graph
--   has the nodes of that graph and their routes, up to an interrupt (Adaptive/Graph/Resume: after
--   it), Adaptive/Service the sessions of application/agent/adaptive_service.py, with a checkpointer
--   or with its bounded cache.
-- Session: application/interview/session_service.py (Session/Service) over persistence_service.py
--   and infrastructure/redis/session_cache.py (Session/Store): a session lives in the database and
--   in a cache; the operations keep the two in agreement and put a completed session up for
--   evaluation. Session uses the status test of Interview; the evaluation task leads to Evaluation.
--
-- Tasks: infrastructure/tasks/base_consumer.py and base_evaluate_consumer.py (Tasks): the consumer
--   that evaluates completed sessions, with its retries.
--
-- How the code is modelled. A text is the list of its code points; texts for the log and the
-- messages of exceptions are left out, so that a raised BusinessException is its error code.
-- Question counts, seconds and times are natural numbers, scores are integers. The averages of
-- Evaluation are exact quotients truncated towards zero; the code divides floats, which gives the
-- same below 2 ^ 53. Calls of the model, the acceptance of a task by the stream, fresh ids and the
-- time are parameters. A column with the JSON text of questions is the list that the text encodes
-- (Interview/Codec shows that nothing is lost). The random source is a record of operations with
-- the laws that Python documents. The results of the fan-out in the evaluation graph come in the
-- order of the batches, as LangGraph documents; a node that is started by its Send gets the sent
-- values as its state and nothing else; an interrupt ends a run before its step is merged, with or
-- without a checkpointer, and one answer resumes it if the step has one interrupt. Redis and the
-- database are taken to work where a definition has no argument for their failures, and each
-- operation of Session and Generation is one step.
--
-- Fuel: the rotation of Skill.Allocation runs at most once for each question asked for, since a
-- round takes at least one; the ranges of Evaluation.Batches have at most as many entries as
-- records; a turn of the agent runs its loop at most 31 times, 30 steps and one more to end; the
-- embeddings of Documents are at most as many batches as chunks.
--
-- Not modelled: the HTTP layer, the frontend, model providers and prompts, document parsing,
-- storage, the search of the vector store, speech recognition and synthesis, the streaming of an
-- agent's events, and the parts listed as such in the project's plan, such as the other consumers
-- of tasks.
pub mod Prelude
pub mod Errors
pub mod Interview
pub mod Questions
pub mod Bank
pub mod Retrieval
pub mod Adaptive
pub mod Session
pub mod Generation
pub mod Documents
pub mod Tasks
pub mod Voice
pub mod Skill
pub mod Evaluation
