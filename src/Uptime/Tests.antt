-- ===== src/Uptime/Tests.antt =====
-- A bucket to try the rows of the chart on, and the theorem applied to it.
use app_dockhand.Base.{
  some, refl, ℕ, txt, Text, [], ◌∷◌, ◌≡◌, ◌++◌, map, replicate, length, ◌-◌, drop,
}
use app_dockhand.Types.Uptime.{UptimeBar, BarStatus}
use app_dockhand.Uptime.{to_uptime_data, to_uptime_data-ends, no_row, row_of}

abbrev zero_time : Text → ℕ
zero_time s = 0

abbrev any_day : ℕ → Text
any_day n = txt "Sep 17"

abbrev bucket : UptimeBar
bucket = record { status = BarStatus.no_data; pct = 100; from = []; to = [] }

to_uptime_data-ends_example :
    (to_uptime_data zero_time any_day any_day 30 30 (bucket ∷ [])
      ≡ some (
          replicate (30 - length (bucket ∷ [])) (no_row zero_time any_day any_day)
          ++ map
              (row_of zero_time any_day any_day)
              (drop (length (bucket ∷ []) - 30) (bucket ∷ []))))
    × (length (
          replicate (30 - length (bucket ∷ [])) (no_row zero_time any_day any_day)
          ++ map
              (row_of zero_time any_day any_day)
              (drop (length (bucket ∷ []) - 30) (bucket ∷ [])))
        ≡ 30)
to_uptime_data-ends_example = to_uptime_data-ends zero_time any_day any_day 30 (bucket ∷ []) refl
