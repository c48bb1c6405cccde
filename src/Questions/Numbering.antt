-- ===== src/Questions/Numbering.antt =====
-- domain/services/question_gen.py, application/interview/question_service.py: the numbers of the
-- questions that are generated, and how many there are.
use native.Mathlib.Nat.{suc-mul}
use interview_agent_py.Prelude.{
  ℕ, zero, suc, not, ◌+◌, ◌*◌, ◌≤◌, ◌≡◌, refl, ap, sym, ◌∙◌, subst, List, [], ◌∷◌, Option, none,
  some, inl, inr, ltb, ◌==◌, Bool-cases, length, length-append, take, length-take, filter, Text,
  nat_eq, arith,
}
use interview_agent_py.Prelude.Dict.{Dict}
use interview_agent_py.Prelude.Dict as Dict
use interview_agent_py.Interview.{InterviewQuestion, max_follow_up}
use interview_agent_py.Interview.Numbered.{NumberedFrom}
use interview_agent_py.Skill.{Skill}
use interview_agent_py.Questions.{
  fill, fallback_from, persona_texts, generate_fallback_questions, follow_ups_from, attach_from,
  attach_follow_ups,
}
use interview_agent_py.Questions.Service.{MainQuestion, renumbered, follow_up_map, attach}

unfoldable pub main_count : List InterviewQuestion → ℕ
unfolding filter
main_count qs = length (filter (λ q. not q.is_follow_up) qs)

-- A list of questions from place `n` on, with `mains` main questions and at most two follow-ups each.
abbrev pub GoodFrom : ℕ → Option ℕ → ℕ → List InterviewQuestion → Type 0
GoodFrom n main mains qs =
    NumberedFrom n main qs × (main_count qs ≡ mains) × (length qs ≤ mains * suc max_follow_up)

follow_ups_from-NumberedFrom :
    (q : InterviewQuestion) (main n : ℕ) (fus : List Text) (rest : List InterviewQuestion)
    → NumberedFrom (n + length fus) (some main) rest
    → NumberedFrom n (some main) (follow_ups_from q main n fus rest)
      × (main_count (follow_ups_from q main n fus rest) ≡ main_count rest)
      × (length (follow_ups_from q main n fus rest) ≡ length fus + length rest)
unfolding follow_ups_from main_count
follow_ups_from-NumberedFrom q main n [] rest numbered =
    let e : n + 0 ≡ n = omega arith in
    (subst (λ k. NumberedFrom k (some main) rest) e numbered, refl, omega arith)
follow_ups_from-NumberedFrom q main n (fu ∷ fus) rest numbered =
    let e : n + suc (length fus) ≡ suc n + length fus = omega arith in
    let tail =
      follow_ups_from-NumberedFrom q main (suc n) fus rest
        (subst (λ k. NumberedFrom k (some main) rest) e numbered) in
    ((refl, refl, λ _ no. absurd (ground (arith, no)), tail.0), tail.1, omega (arith, tail.2))

attach_from-Good :
    (d : Dict ℕ (List Text)) (n : ℕ) (qs : List InterviewQuestion) (main : Option ℕ)
    → GoodFrom n main (length qs) (attach_from max_follow_up d n qs)
unfolding attach_from main_count
attach_from-Good d n [] main = (tt, refl, omega arith)
attach_from-Good d n (q ∷ qs) main =
    let fus = take max_follow_up (Dict.get_or d q.question_index []) in
    let rest = attach_from max_follow_up d (suc n + length fus) qs in
    let good = attach_from-Good d (suc n + length fus) qs (some n) in
    let tail = follow_ups_from-NumberedFrom q n (suc n) fus rest good.0 in
    let few : length fus ≤ max_follow_up =
      omega (arith, length-take max_follow_up (Dict.get_or d q.question_index [])) in
    (
      (refl, refl, λ no _. absurd (ground (arith, no)), tail.0),
      ap suc (tail.1 ∙ good.1),
      omega (arith, tail.2, good.2, few, suc-mul (length qs) (suc max_follow_up)),
    )

fallback_from-Good :
    (n : ℕ) (texts : List Text) (main : Option ℕ)
    → GoodFrom n main (length texts) (fallback_from n texts)
unfolding fallback_from main_count
fallback_from-Good n [] main = (tt, refl, omega arith)
fallback_from-Good n (text ∷ texts) main =
    let good = fallback_from-Good (suc n) texts (some n) in
    (
      (refl, refl, λ no _. absurd (ground (arith, no)), good.0),
      ap suc good.1,
      omega (arith, good.2, suc-mul (length texts) (suc max_follow_up)),
    )

le-length-fill :
    (fuel count : ℕ) (texts : List Text)
    → count ≤ length texts + fuel
    → count ≤ length (fill fuel count texts)
unfolding fill
le-length-fill zero count texts enough = omega arith
le-length-fill (suc fuel) count texts enough = elim (Bool-cases (ltb (length texts) count)) [
  | inl short ↦
      rw short (le-length-fill fuel count _ (omega (arith, enough, length-append texts (_ ∷ []))))
  | inr long ↦ rw long (ground arith)
]

-- Whatever the persona of the skill is, there are as many fallback questions as asked for.
pub generate_fallback_questions-Good :
    (skill : Skill) (count : ℕ) → GoodFrom 0 none count (generate_fallback_questions skill count)
unfolding generate_fallback_questions main_count
generate_fallback_questions-Good skill count = elim (Bool-cases (count == 0)) [
  | inl nothing ↦
      let e : count ≡ 0 = ground arith in
      rw (generate_fallback_questions, nothing) (tt, sym e, omega arith)
  | inr some_asked ↦
      let texts = fill count count (persona_texts skill) in
      let all_there : length (take count texts) ≡ count = omega (
        arith,
        length-take count texts,
        le-length-fill count count (persona_texts skill) (omega arith),
      ) in
      rw (generate_fallback_questions, some_asked)
        (subst (λ n. GoodFrom 0 none n (fallback_from 0 (take count texts))) all_there
          (fallback_from-Good 0 (take count texts) none))
]

length-renumbered : (i : ℕ) (items : List MainQuestion) → length (renumbered i items) ≡ length items
unfolding renumbered
length-renumbered i [] = refl
length-renumbered i ((q, fus) ∷ items) = ap suc (length-renumbered (suc i) items)

pub attach-Good : (items : List MainQuestion) → GoodFrom 0 none (length items) (attach items)
unfolding attach attach_follow_ups
attach-Good items =
    let d = follow_up_map [] 0 items in
    subst (λ n. GoodFrom 0 none n (attach_from max_follow_up d 0 (renumbered 0 items)))
      (length-renumbered 0 items) (attach_from-Good d 0 (renumbered 0 items) none)
