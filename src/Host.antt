-- ===== src/Host.antt =====
-- Effect_Piano/Effect_Piano.cpp, the program on the computer.
pub mod Link
pub mod Text
pub mod Settings
pub mod Palette
pub mod State
pub mod Lights
pub mod Presets
pub mod Midi
pub mod Keys
pub mod Console
pub mod Serial
pub mod Devices
pub mod Main
