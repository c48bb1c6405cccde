-- ===== src/Retrieval/Merged.antt =====
-- domain/services/rag_query.py: what `merge_and_dedup` gives.
use interview_agent_py.Prelude.{
  ◌≡◌, refl, ap, sym, ◌∙◌, subst, List, [], ◌∷◌, map, Option, none, some, inl, inr, Bool, false,
  ◌||◌, if◌then◌else◌, Bool-cases, Option-cases, contains, IsDistinct, Text, nat_eq, list_eq, arith,
  ◌=?◌, text_iff,
}
use interview_agent_py.Prelude.Dict.{Dict, get, put, keys, values, keys-put-IsDistinct}
use interview_agent_py.Prelude.Sorting.{insert, sorted, Ordered, sorted-Ordered}
use interview_agent_py.Retrieval.{RetrievedChunk}
use interview_agent_py.Retrieval.Merge.{
  keep_best, best_of, best_of_lists, score_leb, merge_and_dedup, ltb_ℤ,
}
use interview_agent_py.Retrieval.Best.{IsBest, concat, best_of_lists-IsBest}

abbrev pub contents : List RetrievedChunk → List Text
contents = map (λ c. c.content)

-- The chunk with a content.
unfoldable pub find_content : Text → List RetrievedChunk → Option RetrievedChunk
find_content k [] = none
find_content k (c ∷ cs) = if c.content =? k then some c else find_content k cs

-- Every chunk stands under its content.
abbrev AllKeyed : Dict Text RetrievedChunk → Type 0
AllKeyed [] = Unit
AllKeyed ((k, c) ∷ d) = (c.content ≡ k) × AllKeyed d

put-AllKeyed :
    (d : Dict Text RetrievedChunk) (c : RetrievedChunk) → AllKeyed d → AllKeyed (put d c.content c)
unfolding put
put-AllKeyed [] c h = (refl, tt)
put-AllKeyed ((k, e) ∷ d) c h = elim (Bool-cases (k =? c.content)) [
  | inl same ↦ rw (put, same) (sym ((text_iff k c.content).0 same), h.1)
  | inr other ↦ rw (put, other) (h.0, put-AllKeyed d c h.1)
]

-- What the loops keep of their dict.
abbrev Good : Dict Text RetrievedChunk → Type 0
Good d = AllKeyed d × IsDistinct (keys d)

keep_best-Good : (d : Dict Text RetrievedChunk) (c : RetrievedChunk) → Good d → Good (keep_best d c)
unfolding keep_best
keep_best-Good d c h =
    let stored : Good (put d c.content c) =
      (put-AllKeyed d c h.0, keys-put-IsDistinct d c.content c h.1) in
    elim (Option-cases (get d c.content)) [
      | inl missing ↦ rw (keep_best, missing) stored
      | inr (e, there) ↦ elim (Bool-cases (ltb_ℤ e.score c.score)) [
        | inl higher ↦ rw (keep_best, there, higher) stored
        | inr lower ↦ rw (keep_best, there, lower) h
      ]
    ]

best_of-Good :
    (d : Dict Text RetrievedChunk) (cs : List RetrievedChunk) → Good d → Good (best_of d cs)
unfolding best_of
best_of-Good d [] h = h
best_of-Good d (c ∷ cs) h = best_of-Good (keep_best d c) cs (keep_best-Good d c h)

best_of_lists-Good :
    (d : Dict Text RetrievedChunk) (css : List (List RetrievedChunk))
    → Good d
    → Good (best_of_lists d css)
unfolding best_of_lists
best_of_lists-Good d [] h = h
best_of_lists-Good d (cs ∷ css) h = best_of_lists-Good (best_of d cs) css (best_of-Good d cs h)

contents-values : (d : Dict Text RetrievedChunk) → AllKeyed d → contents (values d) ≡ keys d
contents-values [] h = refl
contents-values ((k, c) ∷ d) h = rw (h.0, contents-values d h.1) refl

find_content-values :
    (d : Dict Text RetrievedChunk) (k : Text) → AllKeyed d → find_content k (values d) ≡ get d k
unfolding find_content get
find_content-values [] k h = refl
find_content-values ((j, c) ∷ d) k h = rw (h.0, find_content-values d k h.1) refl

module _ (le : RetrievedChunk → RetrievedChunk → Bool) where
  contains-insert :
      (x : RetrievedChunk) (ys : List RetrievedChunk) (k : Text)
      → contains k (contents (insert le x ys)) ≡ (x.content =? k || contains k (contents ys))
  unfolding insert contains
  contains-insert x [] k = refl
  contains-insert x (y ∷ ys) k = ground (arith, contains-insert x ys k)

  insert-IsDistinct :
      (x : RetrievedChunk) (ys : List RetrievedChunk)
      → contains x.content (contents ys) ≡ false
      → IsDistinct (contents ys)
      → IsDistinct (contents (insert le x ys))
  unfolding insert contains
  insert-IsDistinct x [] new h = (refl, tt)
  insert-IsDistinct x (y ∷ ys) new h = elim (Bool-cases (le x y)) [
    | inl first ↦ rw (insert, first) (new, h)
    | inr later ↦
        rw (insert, later)
          (
            ground (
              arith,
              contains-insert x ys y.content,
              text_iff x.content y.content,
              text_iff y.content x.content,
            ),
            insert-IsDistinct x ys (ground arith) h.1,
          )
  ]

  find_content-insert :
      (x : RetrievedChunk) (ys : List RetrievedChunk) (k : Text)
      → contains x.content (contents ys) ≡ false
      → find_content k (insert le x ys) ≡ find_content k (x ∷ ys)
  unfolding insert contains find_content
  find_content-insert x [] k new = refl
  find_content-insert x (y ∷ ys) k new = ground (
    arith,
    find_content-insert x ys k,
    text_iff x.content k,
    text_iff y.content k,
    text_iff y.content x.content,
  )

  sorted-contents :
      (xs : List RetrievedChunk)
      → IsDistinct (contents xs)
      → IsDistinct (contents (sorted le xs))
        × ((k : Text) → contains k (contents (sorted le xs)) ≡ contains k (contents xs))
        × ((k : Text) → find_content k (sorted le xs) ≡ find_content k xs)
  unfolding sorted contains find_content
  sorted-contents [] h = (tt, λ k. refl, λ k. refl)
  sorted-contents (x ∷ xs) h =
      let (distinct, same, found) = sorted-contents xs h.1 in
      let new : contains x.content (contents (sorted le xs)) ≡ false = same x.content ∙ h.0 in
      (
        insert-IsDistinct x (sorted le xs) new distinct,
        λ k. contains-insert x (sorted le xs) k ∙ ap (λ b. x.content =? k || b) (same k),
        λ k.
            find_content-insert x (sorted le xs) k new
            ∙ ap (λ o. if x.content =? k then some x else o) (found k),
      )

-- The merged chunks have different contents and stand in the order of their scores, the highest first;
-- and for every content, the chunk with it is one of those given that have it, with the highest score
-- among them, or there is none if none was given.
pub merge_and_dedup-IsBest :
    (candidate_lists : List (List RetrievedChunk)) (k : Text)
    → let merged = merge_and_dedup candidate_lists in
      IsDistinct (contents merged)
      × Ordered score_leb merged
      × IsBest k (concat candidate_lists) (find_content k merged)
unfolding merge_and_dedup
merge_and_dedup-IsBest css k =
    let d = best_of_lists [] css in
    let good = best_of_lists-Good [] css (tt, tt) in
    let all =
      sorted-contents score_leb (values d)
        (subst IsDistinct (sym (contents-values d good.0)) good.1) in
    (
      all.0,
      sorted-Ordered score_leb (λ a b h. ground arith) (values d),
      subst (IsBest k (concat css)) (sym (all.2 k ∙ find_content-values d k good.0))
          (best_of_lists-IsBest css k),
    )
