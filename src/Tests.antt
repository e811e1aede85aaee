-- ===== src/Tests.antt =====
-- The theorems at concrete inputs: a state of the program of Effect_Piano/Effect_Piano.cpp and one
-- of the sketch of Effect_Piano_v1.3.0.ino, and each theorem applied to them.
mod Data
mod Links
mod Files
mod Panel
mod Lights
mod Steps
mod Session
mod Board
mod PowerOn
mod Runs
