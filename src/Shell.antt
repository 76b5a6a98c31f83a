-- ===== src/Shell.antt =====
-- web/components/shell/AppShell.tsx and lib/theme.ts: what the shell of the application keeps for all
-- pages, in parts that share no state.
pub mod Toasts
pub mod Theme
pub mod Dialog
pub mod Nav
pub mod Confirm
pub mod Terminals
mod Tests
