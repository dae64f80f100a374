-- ===== src/Device/Afe/Control.antt =====
-- `afe_handler_init`, `afe_handler_start`, `afe_handler_deinit` and the setters of main/afe_handler.c,
-- and the buffers of `afe_feed_task`, over the set of blocks and handles in use.
pub mod Life
use esp32s3_box3_doubao.Common.{
  ℕ, Bool, true, false, not, ◌&&◌, ◌||◌, Option, none, some, List, is_some, Exec, ok, fault, ◌>>=◌,
  if◌then◌else◌,
}
use esp32s3_box3_doubao.WsClient.Lifecycle.{Blocks, acquire, release}

-- What the calls of ESP-SR give: whether models, configuration, interface and instance are there, the
-- WakeNet models that `esp_srmodel_filter` finds, for "hijason" and of any name, and the chunk sizes.
pub record AfeEnv : Type 0 where
  pub models_ok : Bool
  pub hijason : Option (List ℕ)
  pub any_wakenet : Option (List ℕ)
  pub config_ok : Bool
  pub handle_ok : Bool
  pub create_ok : Bool
  pub feed_chunksize : ℕ
  pub fetch_chunksize : ℕ

-- The static variables. `afe` and `on_wakeup` say that the pointer is not NULL; `model` is the WakeNet
-- model that the instance was made with, and `wakenet` whether it is switched on.
pub record Handler : Type 0 where
  pub models : Option ℕ
  pub afe : Bool
  pub afe_data : Option ℕ
  pub model : Option (List ℕ)
  pub wakenet : Bool
  pub feed_chunksize : ℕ
  pub fetch_chunksize : ℕ
  pub running : Bool
  pub streaming : Bool
  pub feed_task : Bool
  pub on_wakeup : Bool

-- As the static variables start.
abbrev pub idle_handler : Handler
idle_handler = record {
  models = none;
  afe = false;
  afe_data = none;
  model = none;
  wakenet = false;
  feed_chunksize = 0;
  fetch_chunksize = 0;
  running = false;
  streaming = false;
  feed_task = false;
  on_wakeup = false;
}

abbrev wakenet_model : AfeEnv → Option (List ℕ)
wakenet_model env = elim env.hijason [ none ↦ env.any_wakenet | some name ↦ some name ]

-- From `esp_afe_handle_from_config` on, with the configuration to free.
unfoldable pub create_afe :
    AfeEnv → Bool → Option ℕ → Handler → Blocks → Exec (Bool × Handler × Blocks)
create_afe env on_wakeup config s h =
    let (instance, h') = acquire env.create_ok h in
    if not env.handle_ok
    then (do freed ← release config h; ok (false, record s { afe = false }, freed))
    else if not env.create_ok
    then (do freed ← release config h; ok (false, record s { afe = true; afe_data = none }, freed))
    else (do
      freed ← release config h'
      let made = record s {
        afe = true;
        afe_data = instance;
        model = wakenet_model env;
        wakenet = is_some (wakenet_model env);
        feed_chunksize = env.feed_chunksize;
        fetch_chunksize = env.fetch_chunksize;
        on_wakeup = on_wakeup;
      }
      ok (true, made, freed))

-- Whether it returns 0. The configuration is written to before it is compared with NULL.
unfoldable pub afe_handler_init : AfeEnv → Bool → Handler → Blocks → Exec (Bool × Handler × Blocks)
unfolding create_afe
afe_handler_init env on_wakeup s h =
    let (models', h1) = acquire env.models_ok h in
    let (config, h2) = acquire env.config_ok h1 in
    let held = record s { models = models' } in
    if not env.models_ok
    then ok (false, held, h1)
    else if not env.config_ok
    then fault
    else create_afe env on_wakeup config held h2

-- `created` is the success of `xTaskCreatePinnedToCore`.
unfoldable pub afe_handler_start : Bool → Handler → Handler
afe_handler_start created s =
    if s.running
    then s
    else record s { running = true; streaming = false; feed_task = created || s.feed_task }

unfoldable pub afe_handler_set_streaming : Bool → Handler → Handler
afe_handler_set_streaming enable s = record s { streaming = enable }

unfoldable pub afe_handler_enable_wakenet : Handler → Handler
afe_handler_enable_wakenet s =
    if s.afe && is_some s.afe_data then record s { wakenet = true } else s

unfoldable pub afe_handler_disable_wakenet : Handler → Handler
afe_handler_disable_wakenet s =
    if s.afe && is_some s.afe_data then record s { wakenet = false } else s

-- The tasks end by themselves.
unfoldable pub afe_handler_stop : Handler → Handler
afe_handler_stop s = record s { running = false; feed_task = false }

unfoldable pub afe_handler_deinit : Handler → Blocks → Exec (Handler × Blocks)
unfolding afe_handler_stop
afe_handler_deinit s h = do
  let stopped = afe_handler_stop s
  destroyed ← release (if s.afe then s.afe_data else none) h
  freed ← release s.models destroyed
  ok (
    record stopped { afe = false; afe_data = if s.afe then none else s.afe_data; models = none },
    freed,
  )

-- The three buffers of `afe_feed_task`, and whether its loop is entered; they are freed behind it, or
-- at once when one of them is missing.
unfoldable pub feed_task_buffers : Bool → Bool → Bool → Blocks → Exec (Bool × Blocks)
feed_task_buffers mic_ok ref_ok feed_ok h = do
  let (mic_buf, h1) = acquire mic_ok h
  let (ref_buf, h2) = acquire ref_ok h1
  let (feed_buf, h3) = acquire feed_ok h2
  no_mic ← release mic_buf h3
  no_ref ← release ref_buf no_mic
  freed ← release feed_buf no_ref
  ok (mic_ok && ref_ok && feed_ok, freed)
