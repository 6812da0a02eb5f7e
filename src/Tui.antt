-- ===== src/Tui.antt =====
-- The client's terminal interface (sandstorm/src/tui), as far as it computes without drawing.
pub mod TextEntry
