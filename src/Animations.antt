-- ===== src/Animations.antt =====
-- app/src/views/animations: the animations of the display.
pub mod Floats
pub mod Drawing
pub mod WaveLines
pub mod Particles
pub mod DotPath
pub mod TaperedWave
mod Tests
