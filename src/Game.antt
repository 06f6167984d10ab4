-- ===== src/Game.antt =====
-- The snake game of game/.
pub mod Random
pub mod Effect
pub mod Redraw
pub mod Food
pub mod Alive
pub mod Ahead
pub mod Step
pub mod Grown
pub mod Eat
pub mod Crash
pub mod Start
pub mod Keyboard
pub mod Keys
mod Tests
pub mod Font
pub mod Video
pub mod Paint
pub mod Screen
pub mod Letters
pub mod Count
pub mod Shown
pub mod Text
pub mod Pictures
pub mod Loop
