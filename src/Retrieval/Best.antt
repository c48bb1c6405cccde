-- ===== src/Retrieval/Best.antt =====
-- domain/services/rag_query.py: for each content, `merge_and_dedup` keeps a chunk with the highest score.
use interview_agent_py.Prelude.{
  ◌≡◌, ◌⊎◌, refl, sym, ◌∙◌, subst, List, [], ◌∷◌, ◌++◌, map, Option, none, some, inl, inr, true,
  false, if◌then◌else◌, Bool-cases, Option-cases, contains, Text, nat_eq, list_eq, arith, ◌=?◌,
  text_iff, =?-refl,
}
use interview_agent_py.Prelude.Int.{◌≤ℤ◌}
use interview_agent_py.Prelude.Dict.{Dict, get, get-put, get-put_self}
use interview_agent_py.Retrieval.{RetrievedChunk}
use interview_agent_py.Retrieval.Merge.{keep_best, best_of, best_of_lists, ltb_ℤ}

abbrev pub Among : RetrievedChunk → List RetrievedChunk → Type 0
Among r [] = ⊥
Among r (c ∷ cs) = (r ≡ c) ⊎ Among r cs

-- No chunk with the content `k` has a higher score than `r`.
abbrev pub AboveAll : Text → RetrievedChunk → List RetrievedChunk → Type 0
AboveAll k r [] = Unit
AboveAll k r (c ∷ cs) = (c.content ≡ k → c.score ≤ℤ r.score) × AboveAll k r cs

-- What stands for the content `k`: nothing if no chunk has it, else a best one of those that have it.
abbrev pub IsBest : Text → List RetrievedChunk → Option RetrievedChunk → Type 0
IsBest k cs none = contains k (map (λ c. c.content) cs) ≡ false
IsBest k cs (some r) = (r.content ≡ k) × Among r cs × AboveAll k r cs

abbrev Above : Option RetrievedChunk → RetrievedChunk → Type 0
Above none r = Unit
Above (some e) r = e.score ≤ℤ r.score

-- What stands for `k` after the chunks, where `o` stood before.
abbrev Improves :
    Text → Option RetrievedChunk → List RetrievedChunk → Option RetrievedChunk → Type 0
Improves k o cs none = (o ≡ none) × (contains k (map (λ c. c.content) cs) ≡ false)
Improves k o cs (some r) =
    (r.content ≡ k) × (Among r cs ⊎ (o ≡ some r)) × AboveAll k r cs × Above o r

abbrev Keyed : Text → Option RetrievedChunk → Type 0
Keyed k none = Unit
Keyed k (some r) = r.content ≡ k

-- One chunk, seen from `k`.
better : Text → Option RetrievedChunk → RetrievedChunk → Option RetrievedChunk
better k none c = if c.content =? k then some c else none
better k (some e) c =
    if c.content =? k then if ltb_ℤ e.score c.score then some c else some e else some e

get-keep_best_self :
    (d : Dict Text RetrievedChunk) (c : RetrievedChunk)
    → get (keep_best d c) c.content ≡ better c.content (get d c.content) c
unfolding keep_best better
get-keep_best_self d c =
    let self = =?-refl c.content in
    let stored = get-put_self d c.content c in
    elim (Option-cases (get d c.content)) [
      | inl missing ↦ rw (keep_best, better, missing, self) stored
      | inr (e, there) ↦ elim (Bool-cases (ltb_ℤ e.score c.score)) [
        | inl higher ↦ rw (keep_best, better, there, self, higher) stored
        | inr lower ↦ rw (keep_best, better, there, self, lower) there
      ]
    ]

get-keep_best_other :
    (d : Dict Text RetrievedChunk) (c : RetrievedChunk) (k : Text)
    → (c.content =? k) ≡ false
    → get (keep_best d c) k ≡ get d k
unfolding keep_best
get-keep_best_other d c k other =
    let kept = get-put d c.content k c ∙ rw other refl in
    elim (Option-cases (get d c.content)) [
      | inl missing ↦ rw (keep_best, missing) kept
      | inr (e, there) ↦ elim (Bool-cases (ltb_ℤ e.score c.score)) [
        | inl higher ↦ rw (keep_best, there, higher) kept
        | inr lower ↦ rw (keep_best, there, lower) refl
      ]
    ]

better_other :
    (k : Text) (o : Option RetrievedChunk) (c : RetrievedChunk)
    → (c.content =? k) ≡ false
    → better k o c ≡ o
unfolding better
better_other k none c other = rw other refl
better_other k (some e) c other = rw other refl

get-keep_best :
    (d : Dict Text RetrievedChunk) (c : RetrievedChunk) (k : Text)
    → get (keep_best d c) k ≡ better k (get d k) c
get-keep_best d c k = elim (Bool-cases (c.content =? k)) [
  | inl same ↦
      subst (λ j. get (keep_best d c) j ≡ better j (get d j) c) ((text_iff c.content k).0 same)
        (get-keep_best_self d c)
  | inr other ↦ get-keep_best_other d c k other ∙ sym (better_other k (get d k) c other)
]

better-Keyed :
    (k : Text) (o : Option RetrievedChunk) (c : RetrievedChunk) → Keyed k o → Keyed k (better k o c)
unfolding better
better-Keyed k none c keyed = elim (Bool-cases (c.content =? k)) [
  | inl same ↦ rw same ((text_iff c.content k).0 same)
  | inr other ↦ rw other tt
]
better-Keyed k (some e) c keyed = elim (Bool-cases (c.content =? k)) [
  | inl same ↦ elim (Bool-cases (ltb_ℤ e.score c.score)) [
    | inl higher ↦ rw (same, higher) ((text_iff c.content k).0 same)
    | inr lower ↦ rw (same, lower) keyed
  ]
  | inr other ↦ rw other keyed
]

-- A chunk that is not for `k` changes nothing.
Improves-other :
    (k : Text) (o : Option RetrievedChunk) (c : RetrievedChunk) (cs : List RetrievedChunk)
    (r : Option RetrievedChunk)
    → (c.content =? k) ≡ false
    → Improves k o cs r
    → Improves k o (c ∷ cs) r
unfolding contains
Improves-other k o c cs none other (nothing, absent) = (nothing, rw other absent)
Improves-other k o c cs (some r) other (keyed, inl among, above, higher) =
    (keyed, inl (inr among), (λ e. absurd (ground (arith, text_iff c.content k)), above), higher)
Improves-other k o c cs (some r) other (keyed, inr before, above, higher) =
    (keyed, inr before, (λ e. absurd (ground (arith, text_iff c.content k)), above), higher)

Above-trans :
    (o : Option RetrievedChunk) (c r : RetrievedChunk) → Above o c → c.score ≤ℤ r.score → Above o r
Above-trans none c r a b = tt
Above-trans (some e) c r a b = omega arith

-- A chunk that takes the place is at least as good as what stood there.
Improves-taken :
    (k : Text) (o : Option RetrievedChunk) (c : RetrievedChunk) (cs : List RetrievedChunk)
    (r : Option RetrievedChunk)
    → Above o c
    → Improves k (some c) cs r
    → Improves k o (c ∷ cs) r
Improves-taken k o c cs none above (nothing, absent) = absurd (ground arith)
Improves-taken k o c cs (some r) above (keyed, inl among, all, higher) =
    (keyed, inl (inr among), (λ _. higher, all), Above-trans o c r above higher)
Improves-taken k o c cs (some r) above (keyed, inr same, all, higher) =
    let r_is_c : r ≡ c = ground arith in
    (keyed, inl (inl r_is_c), (λ _. higher, all), Above-trans o c r above higher)

-- A chunk that is not better than what stands there is passed over.
Improves-passed :
    (k : Text) (e c : RetrievedChunk) (cs : List RetrievedChunk) (r : Option RetrievedChunk)
    → c.score ≤ℤ e.score
    → Improves k (some e) cs r
    → Improves k (some e) (c ∷ cs) r
Improves-passed k e c cs none below (nothing, absent) = absurd (ground arith)
Improves-passed k e c cs (some r) below (keyed, inl among, all, higher) =
    (keyed, inl (inr among), (λ _. omega arith, all), higher)
Improves-passed k e c cs (some r) below (keyed, inr same, all, higher) =
    (keyed, inr same, (λ _. omega arith, all), higher)

Improves-cons :
    (k : Text) (o : Option RetrievedChunk) (c : RetrievedChunk) (cs : List RetrievedChunk)
    (r : Option RetrievedChunk)
    → Improves k (better k o c) cs r
    → Improves k o (c ∷ cs) r
unfolding better
Improves-cons k o c cs r h = elim (Bool-cases (c.content =? k)) [
  | inr other ↦
      Improves-other k o c cs r other (subst (λ o. Improves k o cs r) (better_other k o c other) h)
  | inl same ↦ for_k o same h
]
  where
    for_k :
        (o : Option RetrievedChunk)
        → (c.content =? k) ≡ true
        → Improves k (better k o c) cs r
        → Improves k o (c ∷ cs) r
    for_k none same h = Improves-taken k none c cs r tt (rw (better, same) at h)
    for_k (some e) same h = elim (Bool-cases (ltb_ℤ e.score c.score)) [
      | inl higher ↦
          Improves-taken k (some e) c cs r (ground arith) (rw (better, same, higher) at h)
      | inr lower ↦ Improves-passed k e c cs r (ground arith) (rw (better, same, lower) at h)
    ]

best_of-Improves :
    (d : Dict Text RetrievedChunk) (cs : List RetrievedChunk) (k : Text)
    → Keyed k (get d k)
    → Improves k (get d k) cs (get (best_of d cs) k)
unfolding best_of contains
best_of-Improves d [] k keyed = start (get d k) keyed
  where
    start : (o : Option RetrievedChunk) → Keyed k o → Improves k o [] o
    start none keyed = (refl, refl)
    start (some e) keyed = (keyed, inr refl, tt, omega arith)
best_of-Improves d (c ∷ cs) k keyed =
    let one = get-keep_best d c k in
    Improves-cons k (get d k) c cs _ (
      subst (λ o. Improves k o cs (get (best_of (keep_best d c) cs) k)) one
        (best_of-Improves (keep_best d c) cs k
          (subst (Keyed k) (sym one) (better-Keyed k (get d k) c keyed))))

pub concat : List (List RetrievedChunk) → List RetrievedChunk
concat [] = []
concat (cs ∷ css) = cs ++ concat css

best_of-append :
    (d : Dict Text RetrievedChunk) (cs ds : List RetrievedChunk)
    → best_of d (cs ++ ds) ≡ best_of (best_of d cs) ds
unfolding best_of
best_of-append d [] ds = refl
best_of-append d (c ∷ cs) ds = best_of-append (keep_best d c) cs ds

best_of_lists-concat :
    (d : Dict Text RetrievedChunk) (css : List (List RetrievedChunk))
    → best_of_lists d css ≡ best_of d (concat css)
unfolding best_of_lists best_of concat
best_of_lists-concat d [] = refl
best_of_lists-concat d (cs ∷ css) =
    best_of_lists-concat (best_of d cs) css ∙ sym (best_of-append d cs (concat css))

Improves-IsBest :
    (k : Text) (cs : List RetrievedChunk) (r : Option RetrievedChunk)
    → Improves k none cs r
    → IsBest k cs r
Improves-IsBest k cs none (nothing, absent) = absent
Improves-IsBest k cs (some r) (keyed, inl among, all, higher) = (keyed, among, all)
Improves-IsBest k cs (some r) (keyed, inr impossible, all, higher) = absurd (ground arith)

-- The dict that the loops build has for every content a best chunk of all lists.
pub best_of_lists-IsBest :
    (css : List (List RetrievedChunk)) (k : Text)
    → IsBest k (concat css) (get (best_of_lists [] css) k)
unfolding get
best_of_lists-IsBest css k =
    subst (λ d. IsBest k (concat css) (get d k)) (sym (best_of_lists-concat [] css))
      (Improves-IsBest k (concat css) _ (best_of-Improves [] (concat css) k tt))
