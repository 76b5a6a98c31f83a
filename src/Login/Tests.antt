-- ===== src/Login/Tests.antt =====
-- Values of ?next= and a form to try the login page on.
use app_dockhand.Base.{
  refl, starts_with, txt, ◌≡◌, trim, some, trim_start, true, trim_end, is_space, ◌∷◌, none, [],
  false,
}
use app_dockhand.Login.{next_path, submit, redirect, replace, post_login, invalidate}

at_home : next_path (txt "//evil.example/") ≡ txt "/"
unfolding next_path starts_with
at_home = refl

-- A browser reads a backslash behind the first slash as another slash.
not_kept_away : next_path (txt "/\\evil.example/") ≡ txt "/\\evil.example/"
unfolding next_path starts_with
not_kept_away = refl

signed_in :
    submit
      (txt "/hosts")
      (record { username = txt " ada "; password = txt "x"; remember = true })
      none
      (record { err = []; busy = false })
    ≡ (
      record { err = []; busy = true },
      post_login (record { username = txt "ada"; password = txt "x"; remember = true })
          ∷ invalidate (txt "/api/auth/state")
          ∷ replace (txt "/hosts")
          ∷ [],
    )
unfolding submit next_path starts_with trim trim_start trim_end is_space
signed_in = refl

redirected :
    redirect (txt "/hosts") (some (record { setup_required = true; has_user = true }))
    ≡ replace (txt "/setup") ∷ []
unfolding redirect
redirected = refl
