-- ===== src/Crafting.antt =====
-- crafting/: which recipe a crafting grid produces, and what a craft leaves in the grid.
pub mod Board
pub mod Grid
pub mod Match
pub mod Craft
mod Tests
