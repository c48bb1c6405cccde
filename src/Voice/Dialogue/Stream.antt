-- ===== src/Voice/Dialogue/Stream.antt =====
-- What is spoken of a reply does not depend on how the model cuts it into tokens.
use mathlib.Core.List.{append_assoc, append-nil}
use interview_agent_py.Prelude.{
  ℕ, ◌≡◌, refl, sym, ap, ◌∙◌, List, [], ◌∷◌, ◌++◌, Bool, true, false, if◌then◌else◌, Text, strip,
  Bool-cases, inl, inr,
}
use interview_agent_py.Voice.Dialogue.{
  ends_sentence, split_from, split_sentences, with_sentence, tail, speak_text, stream_reply,
}

-- The tokens as one text.
unfoldable pub joined : List Text → Text
joined [] = []
joined (token ∷ tokens) = token ++ joined tokens

unfoldable prepend : List Text → List Text × Text → List Text × Text
prepend sentences after = (sentences ++ after.0, after.1)

with_sentence-prepend :
    (s : Text) (p : List Text × Text) (q : List Text × Text)
    → with_sentence s (prepend p.0 q) ≡ prepend (with_sentence s p).0 q
unfolding prepend
with_sentence-prepend [] p q = refl
with_sentence-prepend (c ∷ s) p q = refl

-- Splitting goes on from the remainder.
split_from-append :
    (seg a b : Text)
    → split_from seg (a ++ b) ≡ prepend (split_from seg a).0 (split_from (split_from seg a).1 b)
unfolding split_from prepend
split_from-append seg [] b = refl
split_from-append seg (c ∷ a) b = elim (Bool-cases (ends_sentence c)) [
  | inl at_end ↦ rw at_end (
      ap (with_sentence (strip (seg ++ c ∷ []))) (split_from-append [] a b)
      ∙ with_sentence-prepend (strip (seg ++ c ∷ [])) (split_from [] a)
          (split_from (split_from [] a).1 b))
  | inr inside ↦ rw inside (split_from-append (seg ++ c ∷ []) a b)
]

-- A remainder holds no end of a sentence: splitting it again leaves it whole.
unfoldable IsOpen : Text → Type 0
IsOpen seg = split_from [] seg ≡ ([], seg)

nothing-IsOpen : IsOpen []
unfolding IsOpen split_from
nothing-IsOpen = refl

IsOpen-append : (seg : Text) (b : Text) → IsOpen seg → split_from [] (seg ++ b) ≡ split_from seg b
unfolding IsOpen prepend
IsOpen-append seg b whole =
    split_from-append [] seg b ∙ ap (λ p. prepend p.0 (split_from p.1 b)) whole

IsOpen-next : (seg : Text) (c : ℕ) → IsOpen seg → ends_sentence c ≡ false → IsOpen (seg ++ c ∷ [])
unfolding split_from IsOpen
IsOpen-next seg c whole inside = IsOpen-append seg (c ∷ []) whole ∙ rw inside refl

remainder-IsOpen : (seg a : Text) → IsOpen seg → IsOpen (split_from seg a).1
unfolding split_from
remainder-IsOpen seg [] whole = whole
remainder-IsOpen seg (c ∷ a) whole = elim (Bool-cases (ends_sentence c)) [
  | inl at_end ↦ rw at_end (remainder-IsOpen [] a nothing-IsOpen)
  | inr inside ↦ rw inside (remainder-IsOpen (seg ++ c ∷ []) a (IsOpen-next seg c whole inside))
]

rest-IsOpen : (a : Text) → IsOpen (split_sentences a).1
unfolding split_sentences
rest-IsOpen a = remainder-IsOpen [] a nothing-IsOpen

split_sentences-append :
    (a b : Text)
    → split_sentences (a ++ b)
      ≡ prepend (split_sentences a).0 (split_sentences ((split_sentences a).1 ++ b))
unfolding split_sentences
split_sentences-append a b =
    split_from-append [] a b
    ∙ ap (prepend (split_from [] a).0)
        (sym (IsOpen-append (split_from [] a).1 b (remainder-IsOpen [] a nothing-IsOpen)))

speak_text-append :
    (a b : Text)
    → speak_text (a ++ b) ≡ (split_sentences a).0 ++ speak_text ((split_sentences a).1 ++ b)
unfolding speak_text prepend
speak_text-append a b =
    let rest = split_sentences ((split_sentences a).1 ++ b) in
    ap (λ p. p.0 ++ tail p.1) (split_sentences-append a b)
    ∙ append_assoc (split_sentences a).0 rest.0 (tail rest.1)

-- What is spoken of a whole text, or of its part before the stream raised an exception.
unfoldable spoken : Bool → Text → List Text
spoken raised text = if raised then (split_sentences text).0 else speak_text text

spoken-append :
    (raised : Bool) (a b : Text)
    → spoken raised (a ++ b) ≡ (split_sentences a).0 ++ spoken raised ((split_sentences a).1 ++ b)
unfolding spoken prepend
spoken-append true a b = ap (λ p. p.0) (split_sentences-append a b)
spoken-append false a b = speak_text-append a b

spoken-end :
    (raised : Bool) (sentences : List Text) (pending : Text)
    → IsOpen pending
    → (if raised then sentences else sentences ++ tail pending) ≡ sentences ++ spoken raised pending
unfolding spoken speak_text split_sentences IsOpen
spoken-end true sentences pending whole = rw whole (sym (append-nil sentences))
spoken-end false sentences pending whole = rw whole refl

stream_reply-open :
    (raised : Bool) (sentences : List Text) (pending : Text) (tokens : List Text)
    → IsOpen pending
    → stream_reply raised sentences pending tokens
      ≡ sentences ++ spoken raised (pending ++ joined tokens)
unfolding stream_reply joined
stream_reply-open raised sentences pending [] whole =
    rw (append-nil pending) (spoken-end raised sentences pending whole)
stream_reply-open raised sentences pending (token ∷ tokens) whole =
    let split = split_sentences (pending ++ token) in
    stream_reply-open raised (sentences ++ split.0) split.1 tokens (rest-IsOpen (pending ++ token))
    ∙ append_assoc sentences split.0 (spoken raised (split.1 ++ joined tokens))
    ∙ ap (λ t. sentences ++ t) (sym (spoken-append raised (pending ++ token) (joined tokens)))
    ∙ ap (λ t. sentences ++ spoken raised t) (append_assoc pending token (joined tokens))

-- Whatever tokens the stream gives, what is spoken of the reply is what speak_text would speak of
-- the joined text, or, if the stream raised an exception, its finished sentences.
pub stream_reply-speak_text :
    (raised : Bool) (tokens : List Text)
    → stream_reply raised [] [] tokens
      ≡ (if raised then (split_sentences (joined tokens)).0 else speak_text (joined tokens))
unfolding spoken
stream_reply-speak_text raised tokens = stream_reply-open raised [] [] tokens nothing-IsOpen
