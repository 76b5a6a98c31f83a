-- ===== src/PublicStatus.antt =====
-- web/app/status/page.tsx: what the page of the public status says of all monitors together.
mod Tests
use app_dockhand.Base.{
  ◌≡◌, Text, if◌then◌else◌, List, ◌||◌, Bool, [], text_eq, false, ltb, All, true, ℕ, txt, ◌∷◌,
  is_empty, length, filter, arith,
}
use app_dockhand.Types.Github.{UpStatus}
use app_dockhand.Types.Uptime.{UptimeBar}

-- `UpStatus | number | string`; a status is a text, and the number is not read, so its type is a
-- parameter.
pub data Overall (Num : Type 0) : Type 0 where
  text : Text → Overall Num
  number : Num → Overall Num

pub record PublicMonitor (Num : Type 0) : Type 0 where
  pub name : Text
  pub status : UpStatus
  pub pct : Num
  pub bars : List UptimeBar

pub record PublicStatus (Num : Type 0) : Type 0 where
  pub title : Text
  pub overall : Overall Num
  pub monitors : List (PublicMonitor Num)

pub data VerdictCls : Type 0 where
  ok warn crit muted : VerdictCls

pub record Verdict : Type 0 where
  pub label : Text
  pub cls : VerdictCls
  pub color : Text

unfoldable pub is_down : UpStatus → Bool
is_down UpStatus.down = true
is_down _ = false

unfoldable pub is_degraded : UpStatus → Bool
is_degraded UpStatus.degraded = true
is_degraded _ = false

-- The four answers of `overallOf`.
abbrev pub crit_verdict : Bool → Verdict
crit_verdict several = record {
  label = if several then txt "Major outage" else txt "Partial outage";
  cls = VerdictCls.crit;
  color = txt "#e2504c";
}

abbrev pub warn_verdict : Verdict
warn_verdict = record {
  label = txt "Degraded performance";
  cls = VerdictCls.warn;
  color = txt "#e0a020";
}

abbrev pub muted_verdict : Verdict
muted_verdict = record { label = txt "No monitors"; cls = VerdictCls.muted; color = txt "#9aa1ad" }

abbrev pub ok_verdict : Verdict
ok_verdict = record {
  label = txt "All systems operational";
  cls = VerdictCls.ok;
  color = txt "#22a06b";
}

-- The verdict that all is well.
abbrev pub IsGood : Verdict → Type 0
IsGood v = v.cls ≡ VerdictCls.ok

-- What is false where the verdict is good.
good_one :
    (a c p q e several : Bool)
    → IsGood (
        if a || p
        then crit_verdict several
        else if c || q
        then warn_verdict
        else if e
        then muted_verdict
        else ok_verdict)
    → (p ≡ false) × (q ≡ false) × (e ≡ false)
good_one a c p q e several h = ground arith

module _ {Num : Type 0} where
  -- `typeof d.overall === "string" ? d.overall : ""`
  abbrev pub overall_text : Overall Num → Text
  overall_text (text s) = s
  overall_text (number n) = []

  -- The number of monitors whose status passes a test.
  abbrev pub count_status : (UpStatus → Bool) → List (PublicMonitor Num) → ℕ
  count_status p monitors = length (filter (λ m. p m.status) monitors)

  unfoldable pub overall_of : PublicStatus Num → Verdict
  overall_of d =
      let down = count_status is_down d.monitors in
      let deg = count_status is_degraded d.monitors in
      let o = overall_text d.overall in
      if text_eq o (txt "down") || ltb 0 down
      then crit_verdict (ltb 1 down)
      else if text_eq o (txt "degraded") || ltb 0 deg
      then warn_verdict
      else if is_empty d.monitors
      then muted_verdict
      else ok_verdict

  -- A monitor that is neither down nor degraded.
  abbrev pub IsQuiet : PublicMonitor Num → Type 0
  IsQuiet m = (is_down m.status || is_degraded m.status) ≡ false

  IsQuiet-one :
      (m : PublicMonitor Num) (ms : List (PublicMonitor Num))
      → ltb 0 (count_status is_down (m ∷ ms)) ≡ false
      → ltb 0 (count_status is_degraded (m ∷ ms)) ≡ false
      → IsQuiet m
        × (ltb 0 (count_status is_down ms) ≡ false)
        × (ltb 0 (count_status is_degraded ms) ≡ false)
  IsQuiet-one m ms h k = ground arith

  IsQuiet-all :
      (ms : List (PublicMonitor Num))
      → ltb 0 (count_status is_down ms) ≡ false
      → ltb 0 (count_status is_degraded ms) ≡ false
      → All IsQuiet ms
  IsQuiet-all [] h k = tt
  IsQuiet-all (m ∷ ms) h k = let (q, d, g) = IsQuiet-one m ms h k in (q, IsQuiet-all ms d g)

  -- A verdict is good only if some monitor is there and none is down or degraded, whatever the server
  -- says of them together.
  pub overall_of-IsQuiet :
      (d : PublicStatus Num)
      → IsGood (overall_of d)
      → All IsQuiet d.monitors × (is_empty d.monitors ≡ false)
  unfolding overall_of
  overall_of-IsQuiet d h =
      let (down, deg, some_monitor) = good_one _ _ _ _ _ _ h in
      (IsQuiet-all d.monitors down deg, some_monitor)
