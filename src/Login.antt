-- ===== src/Login.antt =====
-- web/app/login/page.tsx: where the login page leads, and its form. The value of ?next= is a text, empty
-- if it is absent.
mod Tests
use app_dockhand.Base.{
  Text, Bool, List, if◌then◌else◌, Option, ◌∷◌, starts_with, [], txt, is_empty, ◌&&◌, some, trim,
  not, false, ◌||◌, true,
}
use mathlib.Core.Option.{none}

unfoldable pub next_path : Text → Text
next_path n = if starts_with n (txt "/") && not (starts_with n (txt "//")) then n else txt "/"

pub record SignIn : Type 0 where
  pub username : Text
  pub password : Text
  pub remember : Bool

pub data LoginEffect : Type 0 where
  replace invalidate : Text → LoginEffect
  post_login : SignIn → LoginEffect

-- What `useApi` knows of the session, if it is loaded.
pub record LoginState : Type 0 where
  pub setup_required : Bool
  pub has_user : Bool

-- The effect on the state of the session.
unfoldable pub redirect : Text → Option LoginState → List LoginEffect
redirect next none = []
redirect next (some s) =
    if s.setup_required
    then replace (txt "/setup") ∷ []
    else if s.has_user
    then replace (next_path next) ∷ []
    else []

-- `err` and `busy` of the form.
pub record LoginForm : Type 0 where
  pub err : Text
  pub busy : Bool

-- `submit`, with the answer to the request: none, or the text of the error.
abbrev pub after_login : Text → Option Text → LoginForm → LoginForm × List LoginEffect
after_login next none f = (f, invalidate (txt "/api/auth/state") ∷ replace (next_path next) ∷ [])
after_login next (some e) f =
    (record { err = if is_empty e then txt "Sign-in failed." else e; busy = false }, [])

abbrev pub posted : SignIn → LoginForm × List LoginEffect → LoginForm × List LoginEffect
posted body (f, es) = (f, post_login body ∷ es)

unfoldable pub submit : Text → SignIn → Option Text → LoginForm → LoginForm × List LoginEffect
submit next s answer f =
    if is_empty (trim s.username) || is_empty s.password
    then (record f { err = txt "Enter your username and password." }, [])
    else posted (record s { username = trim s.username })
        (after_login next answer (record { err = []; busy = true }))
