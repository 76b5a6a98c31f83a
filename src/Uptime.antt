-- ===== src/Uptime.antt =====
-- web/components/uptime/bars.ts and the texts of web/components/alerts/actions.ts. Of the dates, the time
-- in milliseconds and the two formats are parameters.
mod Tests
use app_dockhand.Base.{
  none, some, refl, ℕ, Bool, Text, Option, if◌then◌else◌, txt, List, leb, ◌==◌, ltb, map, ◌-◌, true,
  ◌+◌, drop, length, false, ◌*◌, suc, ◌≤◌, filter, text_eq, ◌∷◌, ◌≡◌, not, ◌++◌, replicate, ◌&&◌,
  is_empty, show, [], ap, arith, Bool-cases, length-drop, ◌∙◌, inl, length-append, inr,
  length-replicate,
}
use app_dockhand.Types.Uptime.{UptimeBar, BarStatus}
use app_dockhand.Types.Alerts.{Alert, Severity}
use Prim.Native.Nat.{zero, min}

pub record Row : Type 0 where
  pub label : Text
  pub value : ℕ
  pub status : BarStatus

module _ (time : Text → ℕ) (day hm : ℕ → Text) where
  unfoldable pub bar_label : Text → Text → Text
  bar_label from to =
      let f = time from in
      let t = time to in
      if leb (f + 20 * 3600 * 1000) t
      then if text_eq (day f) (day (t - 1)) then day f else day f ++ (txt "–" ++ day (t - 1))
      else day f ++ (b' ' ∷ (hm f ++ (txt "–" ++ hm t)))

  abbrev pub row_of : UptimeBar → Row
  row_of b = record { label = bar_label b.from b.to; value = b.pct; status = b.status }

  abbrev pub no_row : Row
  no_row = record { label = txt "No data yet"; value = 0; status = BarStatus.no_data }

  -- `bars.slice(-count)`; `slice(-0)` is the whole list.
  abbrev pub slice_last : ℕ → List UptimeBar → List UptimeBar
  slice_last count bars = if count == 0 then bars else drop (length bars - count) bars

  -- The `while`, for as many rounds as the fuel.
  unfoldable pub pad : ℕ → ℕ → List Row → Option (List Row)
  pad zero count rows = if ltb (length rows) count then none else some rows
  pad (suc fuel) count rows =
      let more = pad fuel count (no_row ∷ rows) in
      if ltb (length rows) count then more else some rows

  unfoldable pub to_uptime_data : ℕ → ℕ → List UptimeBar → Option (List Row)
  to_uptime_data fuel count bars = pad fuel count (map row_of (slice_last count bars))

  replicate-move :
      (n : ℕ) (x : Row) (rows : List Row) → replicate n x ++ x ∷ rows ≡ replicate (suc n) x ++ rows
  replicate-move zero x rows = refl
  replicate-move (suc n) x rows = ap (λ ys. x ∷ ys) (replicate-move n x rows)

  pad-ends :
      (fuel count : ℕ) (rows : List Row)
      → count - length rows ≤ fuel
      → pad fuel count rows ≡ some (replicate (count - length rows) no_row ++ rows)
  unfolding pad
  pad-ends zero count rows h =
      let e : count - length rows ≡ 0 = omega arith in
      let off : ltb (length rows) count ≡ false = ground arith in rw (off, e) refl
  pad-ends (suc fuel) count rows h = elim (Bool-cases (ltb (length rows) count)) [
    | inl y ↦
        let e : suc (count - suc (length rows)) ≡ count - length rows = ground arith in
        rw y (
          pad-ends fuel count (no_row ∷ rows) (omega (arith, h))
          ∙ ap some (replicate-move (count - suc (length rows)) no_row rows)
          ∙ ap (λ n. some (replicate n no_row ++ rows)) e)
    | inr off ↦ let e : count - length rows ≡ 0 = ground arith in rw (off, e) refl
  ]

  length-map : (bars : List UptimeBar) → length (map row_of bars) ≡ length bars
  length-map [] = refl
  length-map (b ∷ bars) = ap suc (length-map bars)

  length-last :
      (count : ℕ) (bars : List UptimeBar)
      → length (map row_of (drop (length bars - count) bars)) ≡ min count (length bars)
  length-last count bars =
      omega (
        arith,
        length-map (drop (length bars - count) bars),
        length-drop (length bars - count) bars,
      )

  pad-last :
      (count : ℕ) (bars : List UptimeBar)
      → count - length (map row_of (drop (length bars - count) bars)) ≡ count - length bars
  pad-last count bars = omega (arith, length-last count bars)

  -- The loop ends after at most as many rounds as there are to be rows: for a count other than 0 there
  -- are then exactly that many, the last buckets in their order, behind rows without data for those
  -- that are missing.
  pub to_uptime_data-ends :
      (count : ℕ) (bars : List UptimeBar)
      → (count == 0) ≡ false
      → (to_uptime_data count count bars
          ≡ some (
              replicate (count - length bars) no_row
              ++ map row_of (drop (length bars - count) bars)))
        × (length (
              replicate (count - length bars) no_row
              ++ map row_of (drop (length bars - count) bars))
            ≡ count)
  unfolding to_uptime_data
  to_uptime_data-ends count bars h =
      let rows = map row_of (drop (length bars - count) bars) in
      (
        rw h (
            pad-ends count count rows (omega arith)
            ∙ ap (λ n. some (replicate n no_row ++ rows)) (pad-last count bars)),
        omega (
          arith,
          length-append (replicate (count - length bars) no_row) rows,
          length-replicate (count - length bars) no_row,
          length-last count bars,
        ),
      )

-- "3 unread · 1 critical"
unfoldable pub alert_summary : Option (List Alert) → Text
alert_summary none = txt "Loading…"
alert_summary (some list) =
    let unread = length (filter (λ (a : Alert). not a.read) list) in
    let crit = length (filter (λ (a : Alert). is_crit a.severity && not a.resolved) list) in
    if unread == 0 && crit == 0
    then if is_empty list then txt "Nothing needs your attention" else txt "All caught up"
    else show unread
      ++ (txt " unread" ++ (if crit == 0 then [] else txt " · " ++ (show crit ++ txt " critical")))
  where
    is_crit : Severity → Bool
    is_crit Severity.crit = true
    is_crit _ = false
