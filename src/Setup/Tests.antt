-- ===== src/Setup/Tests.antt =====
-- Passwords to try the meter on.
use app_dockhand.Base.{refl, txt, ◌≡◌}
use app_dockhand.Setup.{strength, classes}

weak_password : strength (txt "abc") ≡ 1
unfolding strength classes
weak_password = refl

nine_units : strength (txt "abcdefgh1") ≡ 1
unfolding strength classes
nine_units = refl

strong_password : strength (txt "Correct-horse-7") ≡ 4
unfolding strength classes
strong_password = refl
