-- ===== src/Engine/Apply/Feed.antt =====
-- The arms that change no scene and no actor: AbilityUsed, AdventureLoaded, NarrationAdded,
-- WhisperAdded, NoteUpserted and NoteDeleted.
use vtt_platform.Prelude.{
  String, Bool, true, not, ◌&&◌, ◌||◌, List, [], ◌∷◌, ◌==◌, len, ltb, is_some, if◌then◌else◌,
}
use vtt_platform.Prelude.Int.{ℤ, pos, ltb_ℤ, leb_ℤ, eq_ℤ}
use vtt_platform.Contract.Event.{Envelope, NarrationAdded, WhisperAdded, NoteUpserted}
use vtt_platform.Go.GoMap.{get, put, delete}
use vtt_platform.Engine.State.{State, Note}
use vtt_platform.Engine.Apply.Outcome.{
  Outcome, refuse, done, bad_ability_id, bad_adventure_id, name_too_long, bad_text, as_too_long,
  negative_anchor, half_anchor, inverted_anchor, anchor_not_past, unknown_actor, bad_note_key,
  title_too_long, note_not_present, max_id_bytes, max_name_bytes, max_text_bytes,
  max_narration_as_bytes, max_note_key_bytes, max_note_title_bytes, empty_or_over,
}

unfoldable pub apply_ability_used : State → String → Outcome
apply_ability_used st ability_id =
    if empty_or_over max_id_bytes ability_id then refuse bad_ability_id st else done st

unfoldable pub apply_adventure_loaded : State → String → String → Outcome
apply_adventure_loaded st adventure_id name =
    if empty_or_over max_id_bytes adventure_id
    then refuse bad_adventure_id st
    else if ltb max_name_bytes (len name)
    then refuse name_too_long st
    else done st

-- The block under `if na.AnchorFromSeq != 0 || na.AnchorToSeq != 0`.
unfoldable pub check_anchor : State → ℤ → ℤ → ℤ → Outcome
check_anchor st seq from to =
    if eq_ℤ from (pos 0) || eq_ℤ to (pos 0)
    then refuse half_anchor st
    else if ltb_ℤ to from
    then refuse inverted_anchor st
    else if leb_ℤ seq to
    then refuse anchor_not_past st
    else done st

unfoldable pub apply_narration_added : State → Envelope → NarrationAdded → Outcome
unfolding check_anchor
apply_narration_added st env na =
    if empty_or_over max_text_bytes na.text
    then refuse bad_text st
    else if ltb max_narration_as_bytes (len na.speaks_as)
    then refuse as_too_long st
    else if ltb_ℤ na.anchor_from_seq (pos 0) || ltb_ℤ na.anchor_to_seq (pos 0)
    then refuse negative_anchor st
    else if not (eq_ℤ na.anchor_from_seq (pos 0)) || not (eq_ℤ na.anchor_to_seq (pos 0))
    then check_anchor st env.sequence na.anchor_from_seq na.anchor_to_seq
    else done st

-- The loop over to_actor_ids.
unfoldable pub all_known : State → List String → Bool
all_known st [] = true
all_known st (id ∷ rest) = is_some (get st.actors id) && all_known st rest

unfoldable pub apply_whisper_added : State → WhisperAdded → Outcome
unfolding all_known
apply_whisper_added st w =
    if empty_or_over max_text_bytes w.text
    then refuse bad_text st
    else if not (all_known st w.to_actor_ids)
    then refuse unknown_actor st
    else if not (w.from_actor_id == "") && not (is_some (get st.actors w.from_actor_id))
    then refuse unknown_actor st
    else done st

unfoldable pub apply_note_upserted : State → Envelope → NoteUpserted → Outcome
apply_note_upserted st env nu =
    if empty_or_over max_note_key_bytes nu.key
    then refuse bad_note_key st
    else if ltb max_note_title_bytes (len nu.title)
    then refuse title_too_long st
    else if empty_or_over max_text_bytes nu.text
    then refuse bad_text st
    else done (record st { notes = put st.notes nu.key note })
  where
    note : Note
    note = record {
      title = nu.title;
      text = nu.text;
      updated_seq = env.sequence;
      visibility = nu.visibility;
    }

unfoldable pub apply_note_deleted : State → String → Outcome
apply_note_deleted st key =
    if not (is_some (get st.notes key))
    then refuse note_not_present st
    else done (record st { notes = delete st.notes key })
