-- ===== src/Voice/Dialogue.antt =====
-- domain/services/voice_dialogue.py, and the two places of application/voice/ws_handler.py that cut
-- a text into the sentences to be spoken.
pub mod Stream
use interview_agent_py.Prelude.{
  ℕ, List, [], ◌∷◌, ◌++◌, Bool, true, false, not, ◌&&◌, ◌||◌, if◌then◌else◌, leb, ltb, ◌==◌, length,
  Text, strip, is_empty, nat_eq,
}

abbrev pub min_commit_chars : ℕ
min_commit_chars = 20

abbrev pub commit_debounce_ms : ℕ
commit_debounce_ms = 2500

-- 。！？!?；; and the line feed.
unfoldable pub ends_sentence : ℕ → Bool
ends_sentence ch =
    ch == 12290
    || ch == 65281
    || ch == 65311
    || ch == 33
    || ch == 63
    || ch == 65307
    || ch == 59
    || ch == 10

unfoldable pub merge_segments : List Text → Text
merge_segments [] = []
merge_segments (seg ∷ segments) = strip seg ++ merge_segments segments

unfoldable pub should_commit : Text → ℕ → Bool
should_commit merged_text silence_ms =
    not (is_empty merged_text)
    && (leb min_commit_chars (length merged_text) || leb commit_debounce_ms silence_ms)

-- `if segment: sentences.append(segment)`, before the sentences that come later.
abbrev pub with_sentence : Text → List Text × Text → List Text × Text
with_sentence segment after = ((if is_empty segment then after.0 else segment ∷ after.0), after.1)

-- The loop, with the text since `start`.
unfoldable pub split_from : Text → Text → List Text × Text
split_from segment [] = ([], segment)
split_from segment (ch ∷ text) =
    let after = split_from [] text in
    let further = split_from (segment ++ ch ∷ []) text in
    if ends_sentence ch then with_sentence (strip (segment ++ ch ∷ [])) after else further

unfoldable pub split_sentences : Text → List Text × Text
unfolding split_from
split_sentences text = split_from [] text

unfoldable pub should_drop_audio : ℕ → ℕ → Bool
should_drop_audio now_ms mute_until_ms = ltb now_ms mute_until_ms

-- The sentence of a remainder, if it is not blank.
abbrev pub tail : Text → List Text
tail remainder = if is_empty (strip remainder) then [] else strip remainder ∷ []

-- The sentences that `_speak_text` has spoken.
unfoldable pub speak_text : Text → List Text
unfolding split_sentences
speak_text text = let split = split_sentences text in split.0 ++ tail split.1

-- The sentences that `_commit_turn` has spoken, from the tokens of the reply and whether the stream
-- of tokens then raised an exception.
unfoldable pub stream_reply : Bool → List Text → Text → List Text → List Text
unfolding split_sentences
stream_reply raised sentences pending [] = if raised then sentences else sentences ++ tail pending
stream_reply raised sentences pending (token ∷ tokens) =
    let split = split_sentences (pending ++ token) in
    stream_reply raised (sentences ++ split.0) split.1 tokens
