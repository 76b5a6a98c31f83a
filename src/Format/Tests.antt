-- ===== src/Format/Tests.antt =====
-- Numbers to print, and the theorem applied to one.
use app_dockhand.Base.{refl, txt, show, none, ◌≡◌}
use app_dockhand.Format.{duration, plural, pos}

lasted : duration (pos 1051200) ≡ txt "12d 4h"
unfolding duration show
lasted = refl

counted : plural 3 (txt "host") none ≡ txt "3 hosts"
unfolding plural show
counted = refl
