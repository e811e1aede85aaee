-- ===== src/Sketch.antt =====
-- Effect_Piano_v1.3.0.ino, the sketch on the Arduino.
pub mod State
pub mod Config
pub mod Serial
pub mod Commands
pub mod Keys
pub mod Loop
pub mod Steps
pub mod Obeys
pub mod Orders
