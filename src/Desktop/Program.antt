-- ===== src/Desktop/Program.antt =====
-- The options, the sources of input and the order of the requests of doubao_c_version/main.c.
pub mod Requested
use esp32s3_box3_doubao.Common.{
  ℕ, zero, suc, ◌+◌, ◌-◌, ◌*◌, Bool, true, false, not, ◌||◌, Option, none, some, List, [], ◌∷◌,
  ◌++◌, length, take, drop, get_or, ltb, ◌==◌, if◌then◌else◌,
}
use esp32s3_box3_doubao.Common.Text.{utf8}
use esp32s3_box3_doubao.Desktop.Requests.Laws.{
  Request, start_connection, start_session, say_hello, finish_session, finish_connection,
  task_request, chat_text_query,
}

-- What `getopt_long` gives, each text without its terminating zero, and of the time limit what `atoi`
-- makes of it; a negative one counts as 0, and ends up at 10 like that.
pub data Opt : Type 0 where
  opt_format opt_audio opt_mod : List ℕ → Opt
  opt_timeout : ℕ → Opt
  opt_help opt_unknown : Opt

pub record Options : Type 0 where
  pub format : List ℕ
  pub audio_file : List ℕ
  pub input_mod : List ℕ
  pub recv_timeout : ℕ

-- The program goes on, or ends with a status.
pub data Parsed : Type 0 where
  go_on : Options → Parsed
  exit_with : ℕ → Parsed

abbrev pub default_options : Options
default_options = record {
  format = utf8 "pcm";
  audio_file = [];
  input_mod = utf8 "audio";
  recv_timeout = 10;
}

unfoldable pub parse_options : List Opt → Options → Parsed
parse_options [] o = go_on o
parse_options (opt_format text ∷ rest) o = parse_options rest (record o { format = take 31 text })
parse_options (opt_audio text ∷ rest) o =
    parse_options rest (record o { audio_file = take 511 text })
parse_options (opt_mod text ∷ rest) o = parse_options rest (record o { input_mod = take 31 text })
parse_options (opt_timeout n ∷ rest) o = parse_options rest (record o { recv_timeout = n })
parse_options (opt_help ∷ rest) o = exit_with 0
parse_options (opt_unknown ∷ rest) o = exit_with 1

-- `recv_timeout` between 10 and 120.
unfoldable pub clamp_timeout : ℕ → ℕ
clamp_timeout n =
    let at_least = if ltb n 10 then 10 else n in if ltb 120 at_least then 120 else at_least

abbrev pub is_audio_file : Options → Bool
is_audio_file o = ltb 0 (length o.audio_file)

unfoldable pub settle : Options → Options
unfolding clamp_timeout
settle o = record o {
  recv_timeout = clamp_timeout o.recv_timeout;
  input_mod = if is_audio_file o then utf8 "audio_file" else o.input_mod;
}

-- '\n' and '\r'.
abbrev is_newline : ℕ → Bool
is_newline c = c == 10 || c == 13

-- The loop that cuts the line behind its first `l` bytes.
unfoldable pub trim : ℕ → List ℕ → List ℕ
trim zero line = []
trim (suc l) line =
    let shorter = trim l line in if is_newline (get_or line l 0) then shorter else take (suc l) line

-- One round of `text_input_thread_func`, on what `fgets` reads.
unfoldable pub text_round : List ℕ → List Request
unfolding trim
text_round line =
    let trimmed = trim (length line) line in
    if ltb 0 (length trimmed) then chat_text_query trimmed ∷ [] else []

-- One round of `mic_input_thread_func`, on what `audio_read_input_opus` returns.
unfoldable pub mic_round : Option (List ℕ) → List Request
mic_round none = []
mic_round (some audio_data) = task_request audio_data ∷ []

-- INPUT_CHUNK * 2 * INPUT_CHANNELS.
abbrev pub file_chunk_bytes : ℕ
file_chunk_bytes = 3200 * 2 * 1

-- The loop of `process_audio_file` on the bytes of the file that are left; `running` says of each
-- round whether `s->running` is set. Each round but the last takes a byte or more, so that with as
-- much fuel as there are bytes, running out is the end of the file.
unfoldable pub file_rounds : ℕ → ℕ → (ℕ → Bool) → ℕ → List ℕ → List Request
file_rounds chunk_bytes zero running round bytes = []
file_rounds chunk_bytes (suc fuel) running round [] = []
file_rounds chunk_bytes (suc fuel) running round (b ∷ bs) =
    let rest = file_rounds chunk_bytes fuel running (round + 1) (drop chunk_bytes (b ∷ bs)) in
    if running round then task_request (take chunk_bytes (b ∷ bs)) ∷ rest else []

-- `none` is a file that cannot be opened.
unfoldable pub process_audio_file : (ℕ → Bool) → Bool → Option (List ℕ) → List Request
unfolding file_rounds
process_audio_file running malloc_ok none = []
process_audio_file running malloc_ok (some bytes) =
    if not malloc_ok then [] else file_rounds file_chunk_bytes (length bytes) running 0 bytes

-- The requests of `main` in front of the input, and behind it.
unfoldable pub opening : Options → List Request
opening o =
    start_connection ∷ start_session ∷ (if not (is_audio_file o) then say_hello ∷ [] else [])

abbrev pub closing : List Request
closing = finish_session ∷ finish_connection ∷ []

-- All requests of a program run on a file, in order.
unfoldable pub file_session : Options → (ℕ → Bool) → Bool → Option (List ℕ) → List Request
unfolding opening process_audio_file
file_session o running malloc_ok bytes =
    opening o ++ (process_audio_file running malloc_ok bytes ++ closing)
