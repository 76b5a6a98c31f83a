-- ===== src/Palette.antt =====
-- web/components/shell/CommandPalette.tsx: the entries, how they are scored and grouped, and how the
-- keys move through them.
pub mod Score
pub mod Subsequence
pub mod Items
pub mod Results
pub mod Best
pub mod Move
mod Tests
