-- ===== src/Questions/History.antt =====
-- domain/services/question_gen.py: the questions that a user was asked before, in the prompt. The
-- upper case of a text (`str.upper`) is a parameter.
use interview_agent_py.Prelude.{
  not, List, [], ◌∷◌, ◌++◌, map, none, some, if◌then◌else◌, leb, length, Text, codes, join, strip,
  is_empty, contains, nat_eq, list_eq,
}
use interview_agent_py.Prelude.Dict.{Dict, get, put, set_default}
use interview_agent_py.Prelude.Dict as Dict
use interview_agent_py.Interview.{HistoricalQuestion, max_historical_questions}

unfoldable pub type_key : HistoricalQuestion → Text
type_key hq = elim hq.type [
  | none ↦ codes "GENERAL"
  | some type ↦ if is_empty type then codes "GENERAL" else type
]

unfoldable pub group_by_type :
    Dict Text (List Text) → List HistoricalQuestion → Dict Text (List Text)
unfolding type_key
group_by_type by_type [] = by_type
group_by_type by_type (hq ∷ hqs) =
    group_by_type
      (put by_type (type_key hq) (Dict.get_or by_type (type_key hq) [] ++ hq.question ∷ [])) hqs

unfoldable pub type_lines : Dict Text (List Text) → List Text
type_lines [] = []
type_lines ((key, questions) ∷ by_type) =
    (codes "### " ++ key) ∷ map (λ q. codes "- " ++ q) questions ++ type_lines by_type

unfoldable pub build_historical_section : List HistoricalQuestion → Text
unfolding group_by_type type_lines
build_historical_section historical =
    if is_empty historical
    then codes "（无历史题目）"
    else join (codes "\n") (type_lines (group_by_type [] historical))

abbrev pub difficulty_descriptions : Dict Text Text
difficulty_descriptions =
    (codes "junior", codes "初级（侧重基础概念与常用 API）")
    ∷ (codes "mid", codes "中级（侧重底层实现与性能瓶颈）")
    ∷ (codes "senior", codes "高级（侧重架构选型与复杂故障排查）")
    ∷ []

unfoldable pub build_difficulty_description : Text → Text
build_difficulty_description difficulty =
    Dict.get_or difficulty_descriptions difficulty
      (Dict.get_or difficulty_descriptions (codes "mid") [])

module _ (upper : Text → Text) where
  unfoldable pub history_key : HistoricalQuestion → Text
  history_key hq = upper (strip (elim hq.topic_summary [ none ↦ hq.question | some topic ↦ topic ]))

  -- The loop, with the `break` from within.
  unfoldable pub dedupe_from :
      List Text → List HistoricalQuestion → List HistoricalQuestion → List HistoricalQuestion
  unfolding history_key
  dedupe_from seen result [] = result
  dedupe_from seen result (hq ∷ hqs) =
      let key = history_key hq in
      let fresh = not (contains key seen) in
      let seen' = if fresh then key ∷ seen else seen in
      let result' = if fresh then result ++ hq ∷ [] else result in
      let rest = dedupe_from seen' result' hqs in
      let skipped = dedupe_from seen result hqs in
      if is_empty key
      then skipped
      else if leb max_historical_questions (length result')
      then result'
      else rest

  unfoldable pub dedupe_historical : List HistoricalQuestion → List HistoricalQuestion
  unfolding dedupe_from
  dedupe_historical raw_questions = dedupe_from [] [] raw_questions
