-- ===== src/Shell/Tests.antt =====
-- Events to try the shell on, and the theorems applied to them.
use app_dockhand.Base.{
  none, some, refl, txt, List, [], true, ◌≡◌, text_eq, ◌∷◌, false, starts_with, suc, map,
}
use app_dockhand.Shell.Toasts
use app_dockhand.Shell.Confirm
use app_dockhand.Shell.Toasts.{
  ToastInput, ToastEvent, show_toast, fire_timer, toast_run, no_toasts, toast_run-IsWell,
  toast_step, toast, fire, ToastItem,
}
use app_dockhand.Shell.Confirm.{
  ConfirmInput, ConfirmEvent, ask, type_text, accept, cancel, confirm_run, no_confirms,
  confirm_run-IsWell, confirm_step, confirm, close, press, is_ok, Answer,
}
use app_dockhand.Shell.Theme.{
  Page, choose, change, theme_run, theme_step, set_theme, apply_theme, media_change, stored_theme,
  is_dark,
}
use app_dockhand.Shell.Terminals.{
  TerminalEvent, terminal_run, no_terminals, open_terminal, open_target, close_key,
  open_terminal-IsOpen, IsOpen, window_of,
}
use app_dockhand.Shell.Nav.{active_idx, hrefs, visit, notifications}
use app_dockhand.Types.Account.{Theme}
use app_dockhand.Terminal.Tabs.{TerminalTarget, shell, add_tab}

abbrev hello : ToastInput
hello = record {
  title = txt "Hello";
  text = none;
  kind = none;
  action = none;
  on_action = none;
  timeout = none;
}

abbrev toasted : List ToastEvent
toasted =
    show_toast hello
    ∷ show_toast hello
    ∷ show_toast hello
    ∷ show_toast hello
    ∷ show_toast hello
    ∷ fire_timer 3
    ∷ []

toast_run-IsWell_example : Toasts.IsWell (toast_run no_toasts toasted)
toast_run-IsWell_example = toast_run-IsWell toasted

three_left : map (λ (t : ToastItem). t.id) (toast_run no_toasts toasted).toasts ≡ 2 ∷ 4 ∷ 5 ∷ []
unfolding toast_step toast fire
three_left = refl

abbrev removal : ConfirmInput
removal = record {
  title = txt "Remove the volume?";
  text = [];
  confirm_label = txt "Remove";
  danger = true;
  icon = none;
  details = [];
  type_to_confirm = some (txt "data");
}

abbrev talk : List ConfirmEvent
talk = ask removal ∷ accept ∷ type_text (txt "data") ∷ accept ∷ ask removal ∷ cancel ∷ []

confirm_run-IsWell_example : Confirm.IsWell (confirm_run no_confirms talk)
confirm_run-IsWell_example = confirm_run-IsWell talk

answered : map (λ (a : Answer). a.value) (confirm_run no_confirms talk).answers ≡ false ∷ true ∷ []
unfolding confirm_step confirm close press is_ok text_eq
answered = refl

abbrev bright : Page
bright = record {
  storage = true;
  stored = none;
  prefers_dark = false;
  dark = false;
  theme = Theme.system;
}

-- Without storage the page turns dark with the browser's preference, though "light" was chosen.
without_storage :
    (theme_run (record bright { storage = false }) (choose Theme.light ∷ change true ∷ [])).dark
    ≡ true
unfolding theme_step set_theme apply_theme media_change stored_theme is_dark
without_storage = refl

abbrev host_shell : TerminalTarget
host_shell = shell (txt "h1")

abbrev opened : List TerminalEvent
opened = open_target host_shell ∷ close_key (txt "t1") ∷ open_target host_shell ∷ []

open_terminal-IsOpen_example :
    let s = terminal_run no_terminals opened in
    ((open_terminal host_shell s).window
      ≡ some (
          add_tab host_shell false
            (record (window_of s.window s.tab_seq) { seen = suc s.term_seq })))
    × IsOpen host_shell (open_terminal host_shell s).window
open_terminal-IsOpen_example = open_terminal-IsOpen opened host_shell

marked : map active_idx hrefs ≡ map some (0 ∷ 1 ∷ 2 ∷ 3 ∷ 4 ∷ 5 ∷ 6 ∷ [])
unfolding active_idx text_eq starts_with
marked = refl

visited : visit (txt "/alerts") ≡ notifications
unfolding visit text_eq
visited = refl
