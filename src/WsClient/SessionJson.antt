-- ===== src/WsClient/SessionJson.antt =====
-- `build_start_session_json` of main/doubao_ws_client.c.
use esp32s3_box3_doubao.Common.{ℕ, Option, none, some, List, [], ◌++◌, length, ltb, if◌then◌else◌}
use esp32s3_box3_doubao.Common.Text.{utf8, decimal, snprintf}
use esp32s3_box3_doubao.WsClient.State.{WsConfig}

abbrev pub or_text : Option (List ℕ) → List ℕ → List ℕ
or_text none default_text = default_text
or_text (some text) default_text = text

-- `asr_block`, of 256 bytes. An empty format counts as none.
asr_block : Option (List ℕ) → List ℕ
asr_block asr_audio_format =
    let format = or_text asr_audio_format [] in
    if ltb 0 (length format)
    then snprintf 256 (
        utf8 "\"asr\":{\"audio_info\":{\"format\":\""
        ++ (format
            ++ utf8
                "\",\"sample_rate\":16000,\"channel\":1},\"extra\":{\"end_smooth_window_ms\":500}},"))
    else snprintf 256 (utf8 "\"asr\":{\"extra\":{\"end_smooth_window_ms\":500}},")

-- What `json_buf`, of `json_buf_size` bytes, holds in front of the terminating zero.
unfoldable pub build_start_session_json : ℕ → WsConfig → List ℕ
unfolding asr_block
build_start_session_json json_buf_size config = snprintf json_buf_size (
    utf8 "{"
    ++ (asr_block config.asr_audio_format
        ++ (utf8 "\"tts\":{\"speaker\":\""
            ++ (or_text config.tts_speaker (utf8 "zh_male_yunzhou_jupiter_bigtts")
                ++ (utf8
                      "\",\"audio_config\":{\"channel\":1,\"format\":\"ogg_opus\",\"sample_rate\":24000}},\"dialog\":{\"bot_name\":\"Jason\",\"system_role\":\"你使用活泼灵动的女声，性格开朗，热爱生活。\",\"speaking_style\":\"你的说话风格简洁明了，语速适中，语调自然。\",\"location\":{\"city\":\"上海\"},\"extra\":{\"strict_audit\":false,\"enable_user_query_exit\":true,\"audit_response\":\"支持客户自定义安全审核回复话术。\",\"recv_timeout\":"
                    ++ (decimal config.recv_timeout
                        ++ (utf8 ",\"input_mod\":\""
                            ++ (or_text config.input_mod (utf8 "audio") ++ utf8 "\"}}}"))))))))
