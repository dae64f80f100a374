-- ===== src/Device/Afe.antt =====
-- main/afe_handler.c: the tasks that feed and fetch the audio front end (AFE) of ESP-SR, and what
-- starts and ends them.
pub mod Feed
pub mod Control
