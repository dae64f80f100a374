-- ===== src/Desktop/SessionJson.antt =====
-- `build_start_session_json` of doubao_c_version/config.h.
use esp32s3_box3_doubao.Common.{ℕ, Option, none, some, List, ◌++◌}
use esp32s3_box3_doubao.Common.Text.{utf8, decimal, snprintf}

-- `asr_block`, of 256 bytes.
asr_block : Option (List ℕ) → List ℕ
asr_block none = snprintf 256 (utf8 "\"asr\":{\"extra\":{\"end_smooth_window_ms\":1500}},")
asr_block (some format) = snprintf 256 (
    utf8 "\"asr\":{\"audio_info\":{\"format\":\""
    ++ (format
        ++ utf8
            "\",\"sample_rate\":16000,\"channel\":1},\"extra\":{\"end_smooth_window_ms\":1500}},"))

-- What `json_buf`, of 2048 bytes, holds in front of the terminating zero.
unfoldable pub build_start_session_json : Option (List ℕ) → List ℕ → ℕ → List ℕ
unfolding asr_block
build_start_session_json asr_audio_format input_mod recv_timeout = snprintf 2048 (
    utf8 "{"
    ++ (asr_block asr_audio_format
        ++ (utf8
              "\"tts\":{\"speaker\":\"zh_female_vv_jupiter_bigtts\",\"audio_config\":{\"channel\":1,\"format\":\"ogg_opus\",\"sample_rate\":24000}},\"dialog\":{\"bot_name\":\"豆包\",\"system_role\":\"你使用活泼灵动的女声，性格开朗，热爱生活。\",\"speaking_style\":\"你的说话风格简洁明了，语速适中，语调自然。\",\"location\":{\"city\":\"北京\"},\"extra\":{\"strict_audit\":false,\"audit_response\":\"支持客户自定义安全审核回复话术。\",\"recv_timeout\":"
            ++ (decimal recv_timeout
                ++ (utf8 ",\"input_mod\":\"" ++ (input_mod ++ utf8 "\"}}}"))))))
