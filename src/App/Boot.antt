-- ===== src/App/Boot.antt =====
-- The start of main/app_main.c: WiFi, the time, and `app_main`.
pub mod Wifi
pub mod Start
