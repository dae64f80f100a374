-- ===== src/Device.antt =====
-- What stands between the application of the device and its hardware: main/audio_hal.c and
-- main/afe_handler.c.
pub mod Ring
pub mod Hal
pub mod Afe
