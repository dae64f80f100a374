-- ===== src/App/State.antt =====
-- The global state of main/app_main.c, with the state that it reaches through main/audio_hal.c,
-- main/afe_handler.c, main/opus_processor.c and main/ui_lcd.c.
use Prim.Native.String.{String}
use esp32s3_box3_doubao.Common.{ℕ, Bool, true, false, Option, List, []}
use esp32s3_box3_doubao.Protocol.Platform.{Platform}
use esp32s3_box3_doubao.WsClient.State.{WsClient}
use esp32s3_box3_doubao.WsClient.Lifecycle.{Blocks}
use esp32s3_box3_doubao.WsClient.Requests.{Transport}
use esp32s3_box3_doubao.Opus.{Opus, Codec, opus_proc_reset_ogg}

pub data AppState : Type 0 where
  idle connecting connected_idle handshaking listening speaking : AppState

-- The texts of the four labels.
pub record Ui : Type 0 where
  pub state_label : String
  pub asr_text : List ℕ
  pub tts_text : List ℕ
  pub hint : String

-- The queued items of the three ring buffers.
pub record Audio : Type 0 where
  pub capture : List (List ℕ)
  pub playback : List (List ℕ)
  pub reference : List (List ℕ)

-- `streaming` is `s_streaming` of afe_handler.c, and `wakenet` whether WakeNet is enabled. `sent` is
-- every frame handed to the transport, the latest last.
pub record App : Type 0 where
  pub app_state : AppState
  pub ws : WsClient
  pub blocks : Blocks
  pub sent : List (List ℕ)
  pub opus : Opus
  pub audio : Audio
  pub streaming : Bool
  pub wakenet : Bool
  pub running : Bool
  pub session_active : Bool
  pub say_hello_done : Bool
  pub user_querying : Bool
  pub bargein_requested : Bool
  pub tts_text : List ℕ
  pub last_reply_id : List ℕ
  pub ui : Ui

-- cJSON: an item is its address; a text is its bytes in front of the terminating zero.
pub record CJson : Type 0 where
  pub parse_with_length : List ℕ → Option ℕ
  pub get_object_item : ℕ → String → Option ℕ
  pub is_string : ℕ → Bool
  pub is_bool : ℕ → Bool
  pub is_true : ℕ → Bool
  pub is_array : ℕ → Bool
  pub get_array_size : ℕ → ℕ
  pub get_array_item : ℕ → ℕ → Option ℕ
  pub valuestring : ℕ → Option (List ℕ)

-- Everything that the application takes from elsewhere. `playback_room` says whether an item can
-- be queued for playback in time.
pub record Env : Type 0 where
  pub platform : Platform
  pub json : CJson
  pub codec : Codec
  pub send_bin : Transport
  pub playback_room : List (List ℕ) → List ℕ → Bool

-- `set_app_state`.
abbrev pub label_of : AppState → String
label_of idle = "Idle"
label_of connecting = "Connecting"
label_of connected_idle = "Ready"
label_of handshaking = "Handshaking"
label_of listening = "Listening"
label_of speaking = "Speaking"

unfoldable pub set_app_state : AppState → App → App
set_app_state new_state app = record app {
  app_state = new_state;
  ui = record app.ui { state_label = label_of new_state };
}

-- `ui_lcd_set_hint`, `ui_lcd_set_asr_text` and `ui_lcd_set_tts_text`.
unfoldable pub set_hint : String → App → App
set_hint text app = record app { ui = record app.ui { hint = text } }

unfoldable pub set_asr_text : List ℕ → App → App
set_asr_text text app = record app { ui = record app.ui { asr_text = text } }

unfoldable pub set_tts_label : List ℕ → App → App
set_tts_label text app = record app { ui = record app.ui { tts_text = text } }

-- `audio_hal_clear_playback`, `audio_hal_clear_capture` and `audio_hal_clear_ref`: `drain_ringbuf`.
unfoldable pub clear_playback : App → App
clear_playback app = record app { audio = record app.audio { playback = [] } }

unfoldable pub clear_capture : App → App
clear_capture app = record app { audio = record app.audio { capture = [] } }

unfoldable pub clear_ref : App → App
clear_ref app = record app { audio = record app.audio { reference = [] } }

-- `afe_handler_set_streaming`, `afe_handler_enable_wakenet` and `afe_handler_disable_wakenet`, once
-- the AFE has been created.
unfoldable pub set_streaming : Bool → App → App
set_streaming enable app = record app { streaming = enable }

unfoldable pub enable_wakenet : App → App
enable_wakenet app = record app { wakenet = true }

unfoldable pub disable_wakenet : App → App
disable_wakenet app = record app { wakenet = false }

unfoldable pub reset_ogg : Env → App → App
reset_ogg E app = record app { opus = opus_proc_reset_ogg E.codec app.opus }

-- A chain of statements, the first one first.
infixl 6 ◌▷◌
abbrev pub ◌▷◌ : App → (App → App) → App
app ▷ f = f app
