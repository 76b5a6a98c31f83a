-- ===== src/SshConfig/Steps.antt =====
-- web/components/settings/hosts-lib.ts: the steps of a connection test, while waiting and after it.
use app_dockhand.Base.{
  ℕ, Bool, List, true, Text, txt, false, if◌then◌else◌, ◌∷◌, map, [], ◌&&◌, suc, ltb, leb, ◌==◌,
  ◌++◌, show,
}
use app_dockhand.Types.Hosts.{HostMethod, HostTestResult, TestStep, TestStepStatus}
use app_dockhand.Types.Jobs.{JobStep, StepStatus}

abbrev pub test_labels : List Text
test_labels =
    txt "Resolving address"
    ∷ txt "Opening SSH connection"
    ∷ txt "Authenticating"
    ∷ txt "Checking Docker"
    ∷ txt "Reading host info"
    ∷ []

abbrev pub is_local : HostMethod → Bool
is_local HostMethod.local = true
is_local _ = false

abbrev pub pending_step : HostMethod → ℕ → Text → JobStep
pending_step method i label = record {
  label = label;
  sub = if is_local method && ltb i 3 then txt "skipped for local socket" else [];
  status =
      if i == 0
      then StepStatus.running
      else if is_local method && ltb i 3
      then StepStatus.skipped
      else StepStatus.pending;
  t = [];
}

-- `labels.map((label, i) => ...)` from the index on
abbrev pub pending_from : HostMethod → ℕ → List Text → List JobStep
pending_from method i [] = []
pending_from method i (label ∷ labels) =
    pending_step method i label ∷ pending_from method (suc i) labels

unfoldable pub pending_steps : HostMethod → List JobStep
pending_steps method = pending_from method 0 test_labels

abbrev pub as_step_status : TestStepStatus → StepStatus
as_step_status TestStepStatus.done = StepStatus.done
as_step_status TestStepStatus.failed = StepStatus.failed
as_step_status TestStepStatus.skipped = StepStatus.skipped

abbrev pub is_skipped : TestStepStatus → Bool
is_skipped TestStepStatus.skipped = true
is_skipped _ = false

-- The first argument is `(ms / 1000).toFixed(1)`.
abbrev pub step_time : (ℕ → Text) → TestStep → Text
step_time seconds s =
    if is_skipped s.status
    then []
    else if leb 1000 s.ms
    then seconds s.ms ++ txt "s"
    else show s.ms ++ txt "ms"

unfoldable pub result_steps : (ℕ → Text) → HostTestResult → List JobStep
result_steps seconds r =
    map
      (λ (s : TestStep). record {
        label = s.label;
        sub = s.sub;
        status = as_step_status s.status;
        t = step_time seconds s;
      })
      r.steps
