-- ===== src/Bank/Promise.antt =====
-- application/knowledgebase/interview_service.py: an option that the capacity offers can be taken.
use native.Mathlib.Nat.{suc-mul}
use interview_agent_py.Prelude.{
  ℕ, zero, suc, ◌*◌, ◌<◌, ◌≡◌, refl, ap, sym, ◌∙◌, subst, List, [], ◌∷◌, map, Option, none, some,
  inl, inr, true, false, Bool-cases, length, filter, get_elem?, Text, codes, is_empty, arith,
}
use interview_agent_py.Prelude.Dict.{keys}
use interview_agent_py.Errors.{Result, ok, raise, ◌>>=◌}
use interview_agent_py.Interview.{InterviewQuestion}
use interview_agent_py.Interview.Numbered.{Numbered}
use interview_agent_py.Session.{InterviewSession, SessionView, World}
use interview_agent_py.Session.Coherent.{Coherent}
use interview_agent_py.Session.Create.{create_with-Coherent}
use interview_agent_py.Session.Service.{
  NewSession, create_session_from_questions, new_row, new_view, create_with,
}
use interview_agent_py.Bank.{Random, trim_to_none}
use interview_agent_py.Bank.Numbering.{assemble_interview_questions-Numbered}
use interview_agent_py.Bank.Capacity.{
  CategoryOption, FollowUpOption, in_scope, calculate_interview_capacity, max_follow_up_count,
}
use interview_agent_py.Bank.Selectable.{Succeeds, calculate_interview_capacity-selectable_iff}
use interview_agent_py.Bank.Service.{
  KnowledgeBaseQuestion, KnowledgeBases, to_candidate, normalize_difficulty, has_category,
  find_active_questions, is_active, require_kb, CreateKnowledgeBaseInterviewRequest,
  CapacityResponse, get_capacity, paper_for, create_session,
}

filter-has_category-none :
    (rows : List KnowledgeBaseQuestion) → filter (has_category none) rows ≡ rows
unfolding filter has_category
filter-has_category-none [] = refl
filter-has_category-none (row ∷ rows) = ap (λ t. row ∷ t) (filter-has_category-none rows)

-- The filter of `calculate_interview_capacity` is the one of the query.
filter-in_scope-map :
    (category : Option Text) (rows : List KnowledgeBaseQuestion)
    → filter (in_scope category) (map to_candidate rows)
      ≡ map to_candidate (filter (has_category category) rows)
unfolding filter has_category in_scope to_candidate
filter-in_scope-map category [] = refl
filter-in_scope-map none (row ∷ rows) =
    ap (λ t. to_candidate row ∷ t) (filter-in_scope-map none rows)
filter-in_scope-map (some c) (row ∷ rows) = elim (Bool-cases (has_category (some c) row)) [
  | inl here ↦
      rw (filter, here) (ap (λ t. to_candidate row ∷ t) (filter-in_scope-map (some c) rows))
  | inr not_here ↦ rw (filter, not_here) (filter-in_scope-map (some c) rows)
]

-- The candidates in the scope of the capacity are those that the interview is assembled from.
same_candidates :
    (bases : KnowledgeBases) (kb_id : ℕ) (difficulty : Text) (category : Option Text)
    → filter
        (in_scope category)
        (map to_candidate (find_active_questions bases kb_id difficulty none))
      ≡ map to_candidate (find_active_questions bases kb_id difficulty category)
unfolding find_active_questions
same_candidates bases kb_id difficulty category =
    let active = filter (is_active kb_id difficulty) bases.questions in
    ap (λ rows. filter (in_scope category) (map to_candidate rows))
      (filter-has_category-none active)
    ∙ filter-in_scope-map category active

capacity_parts :
    (bases : KnowledgeBases) (kb_id : ℕ) (category difficulty : Option Text) (main_count : ℕ)
    {response : CapacityResponse}
    → get_capacity bases kb_id category difficulty main_count ≡ ok response
    → (require_kb bases kb_id ≡ ok tt)
      × (response.follow_up_options
          ≡ (calculate_interview_capacity
              (map to_candidate
                (find_active_questions bases kb_id (normalize_difficulty difficulty) none))
              (trim_to_none category)
              main_count
              max_follow_up_count).1)
unfolding get_capacity
capacity_parts bases kb_id category difficulty main_count {response} given =
    split (require_kb bases kb_id) refl given
  where
    options : List CategoryOption × List FollowUpOption
    options =
        calculate_interview_capacity
          (map to_candidate
            (find_active_questions bases kb_id (normalize_difficulty difficulty) none))
          (trim_to_none category) main_count max_follow_up_count

    answer : CapacityResponse
    answer = record {
      knowledge_base_id = kb_id;
      category = trim_to_none category;
      difficulty = normalize_difficulty difficulty;
      main_question_count = main_count;
      categories = options.0;
      follow_up_options = options.1;
    }

    split :
        (found : Result (Unit {0}))
        → require_kb bases kb_id ≡ found
        → (found >>= λ _. ok answer) ≡ ok response
        → (require_kb bases kb_id ≡ ok tt) × (response.follow_up_options ≡ options.1)
    split (raise e) known given = absurd (ground arith)
    split (ok tt) known given =
        let same : answer ≡ response = ground arith in
        (known, sym (ap (λ (r : CapacityResponse). r.follow_up_options) same))

some-length :
    (qs : List InterviewQuestion) (main_count follow_up_count : ℕ)
    → length qs ≡ main_count * suc follow_up_count
    → 0 < main_count
    → is_empty qs ≡ false
some-length [] zero follow_up_count size some_main = absurd (omega arith)
some-length [] (suc n) follow_up_count size some_main =
    absurd (omega (arith, suc-mul n (suc follow_up_count)))
some-length (q ∷ qs) main_count follow_up_count size some_main = refl

module _ (rng : Random) where
  open rng use {State}

  -- The session that a call creates: its questions are numbered, `main_question_count` of them main
  -- questions with `follow_up_count` follow-ups each; it is in the table and in the cache, which agree
  -- on it, with no answers yet; nothing is put up for evaluation.
  pub Created :
      CreateKnowledgeBaseInterviewRequest → Text → World → Result SessionView × World → Type 0
  Created request session_id w result =
      (view : SessionView) × (row : InterviewSession) × (result.0 ≡ ok view)
      × (length view.questions ≡ request.main_question_count * suc request.follow_up_count)
      × Numbered view.questions
      × (row.questions ≡ view.questions)
      × (keys row.answers ≡ [])
      × Coherent session_id row result.1
      × (result.1.tasks ≡ w.tasks)

  -- If the capacity, asked for the same knowledge base, category, difficulty and number of main
  -- questions, offers a number of follow-ups as selectable, then a request for an interview with that
  -- number of follow-ups creates a session, whatever the random source draws.
  pub create_session-Created :
      (bases : KnowledgeBases) (s : State) (session_id : Text)
      (request : CreateKnowledgeBaseInterviewRequest) (w : World) {response : CapacityResponse}
      {o : FollowUpOption}
      → get_capacity bases request.knowledge_base_id request.category request.difficulty
          request.main_question_count
        ≡ ok response
      → get_elem? response.follow_up_options request.follow_up_count ≡ some o
      → o.selectable ≡ true
      → Created request session_id w (create_session rng bases s session_id request w)
  unfolding Created create_session paper_for create_session_from_questions create_with
  create_session-Created bases s session_id request w {response} {o} given at selectable =
      let difficulty = normalize_difficulty request.difficulty in
      let (known, options) =
        capacity_parts bases request.knowledge_base_id request.category request.difficulty
          request.main_question_count given in
      let promise =
        (calculate_interview_capacity-selectable_iff rng
            (map to_candidate
              (find_active_questions bases request.knowledge_base_id difficulty none))
            (trim_to_none request.category) request.main_question_count max_follow_up_count
            request.follow_up_count s
            (ap (λ os. get_elem? os request.follow_up_count) (sym options) ∙ at)).1.0
          selectable in
      let (qs, assembled) =
        subst (λ cs. Succeeds rng cs request.main_question_count request.follow_up_count s)
          (same_candidates bases request.knowledge_base_id difficulty
            (trim_to_none request.category))
          promise.1 in
      let (size, numbered) =
        assemble_interview_questions-Numbered rng _ request.main_question_count
          request.follow_up_count s assembled in
      let not_empty =
        some-length qs request.main_question_count request.follow_up_count size promise.0 in
      let new_session : NewSession = record {
        session_id = session_id;
        skill_id = codes "knowledge-base";
        difficulty = difficulty;
        resume_id = none;
        llm_provider = request.llm_provider;
        source_type = codes "KNOWLEDGE_BASE";
        knowledge_base_id = some request.knowledge_base_id;
        interview_category = trim_to_none request.category;
        resume_text = [];
        questions = qs;
      } in
      let created = create_with-Coherent new_session w in
      (
        new_view new_session,
        new_row new_session,
        rw (create_session, paper_for, known, assembled, not_empty) refl,
        size,
        numbered,
        refl,
        refl,
        rw (create_session, paper_for, known, assembled, not_empty) created.0,
        rw (create_session, paper_for, known, assembled, not_empty) created.1,
      )
