-- ===== src/App/Display.antt =====
-- The accumulated reply text of `on_ws_receive`: `g_tts_text`, of 1024 bytes, and
-- `g_last_reply_id`, of 256.
use esp32s3_box3_doubao.Common.{
  ℕ, ◌-◌, Bool, true, false, not, ◌&&◌, List, [], ◌∷◌, ◌++◌, length, take, ltb, ◌==◌, if◌then◌else◌,
}
use esp32s3_box3_doubao.App.State.{App, set_tts_label, ◌▷◌}

abbrev pub tts_text_size : ℕ
tts_text_size = 1024

abbrev pub reply_id_size : ℕ
reply_id_size = 256

-- Appends what there is room for, and shows the text if anything was appended.
unfoldable pub append_tts : List ℕ → App → App
append_tts text app =
    let available = tts_text_size - 1 - length app.tts_text in
    let copy_len = if ltb (length text) available then length text else available in
    let joined = app.tts_text ++ take copy_len text in
    if ltb 0 (length text) && ltb 0 available
    then record app { tts_text = joined } ▷ set_tts_label joined
    else app

abbrev pub same_text : List ℕ → List ℕ → Bool
same_text [] [] = true
same_text (x ∷ xs) (y ∷ ys) = x == y && same_text xs ys
same_text _ _ = false

-- A reply with another identifier clears the text; the identifier is kept, cut to the array.
unfoldable pub note_reply_id : List ℕ → App → App
note_reply_id reply_id app =
    let cleared =
      if ltb 0 (length app.last_reply_id) && not (same_text app.last_reply_id reply_id)
      then record app { tts_text = [] }
      else app in
    let copy_len =
      if ltb (length reply_id) (reply_id_size - 1) then length reply_id else reply_id_size - 1 in
    record cleared { last_reply_id = take copy_len reply_id }
