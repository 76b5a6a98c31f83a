-- ===== src/Format.antt =====
-- web/lib/format.ts: numbers, states and names as texts and colours. Sizes are whole bytes and times
-- whole seconds; what `toFixed` prints of a quotient and upper case are parameters.
pub mod Sizes
mod Tests
use app_dockhand.Base.{
  refl, ℕ, Bool, suc, Text, ◌*◌, if◌then◌else◌, List, Option, ◌∷◌, ◌+◌, txt, leb, ◌==◌, ◌/◌, ltb,
  show, [], ◌||◌, ◌++◌, ◌%◌, any, some, trim, not, text_eq, take, filter, is_empty, map,
}
use app_dockhand.Base.Int.{ℤ, pos, negsuc}
use app_dockhand.Types.Hosts.{HostStatus}
use app_dockhand.Types.Containers.{ContainerState, Health, PortMap, PortMapProto}
use mathlib.Core.Option.{none}
use app_dockhand.Types.Alerts.{Severity}
use app_dockhand.Types.Github.{UpStatus}

-- The loop of `bytes` and `bytesShort`: what the number is divided by, and the unit.
unfoldable pub scale : ℕ → ℕ → Text → List Text → ℕ × Text
scale n den u [] = (den, u)
scale n den u (v ∷ us) =
    let rest = scale n (den * 1024) v us in if leb (1024 * den) n then rest else (den, u)

-- `Math.round(num / den)`
abbrev pub round_quotient : ℕ → ℕ → ℕ
round_quotient num den = (2 * num + den) / (2 * den)

abbrev pub unknown : Text
unknown = txt "—"

module _ (to_fixed : ℕ → ℕ → ℕ → Text) where
  abbrev pub sized : ℕ → ℕ → ℕ → ℕ → Text
  sized whole_from n den digits =
      if leb (whole_from * den) n || den == 1
      then show (round_quotient n den)
      else to_fixed n den digits

  unfoldable pub bytes : ℤ → ℕ → Text
  bytes (negsuc n) digits = unknown
  bytes (pos n) digits =
      let (den, u) =
        scale n 1 (txt "B") (txt "KB" ∷ txt "MB" ∷ txt "GB" ∷ txt "TB" ∷ txt "PB" ∷ []) in
      sized 100 n den digits ++ b' ' ∷ u

  unfoldable pub bytes_short : ℤ → Text
  bytes_short (negsuc n) = unknown
  bytes_short (pos n) =
      let (den, u) = scale n 1 (txt "B") (txt "K" ∷ txt "M" ∷ txt "G" ∷ txt "T" ∷ []) in
      sized 10 n den 1 ++ u

-- The two units of a duration, the smaller one only if there is some of it.
abbrev pub two_units : ℕ → Text → ℕ → Text → Text
two_units a u b v = if b == 0 then show a ++ u else show a ++ (u ++ (b' ' ∷ (show b ++ v)))

unfoldable pub duration : ℤ → Text
duration (negsuc n) = unknown
duration (pos sec) =
    let d = sec / 86400 in
    let h = sec % 86400 / 3600 in
    let m = sec % 3600 / 60 in
    if not (d == 0)
    then two_units d (txt "d") h (txt "h")
    else if not (h == 0)
    then two_units h (txt "h") m (txt "m")
    else if not (m == 0)
    then show m ++ txt "m"
    else show sec ++ txt "s"

-- By the hour of the day.
unfoldable pub greeting : ℕ → Text
greeting h =
    if ltb h 5
    then txt "Good evening"
    else if ltb h 12
    then txt "Good morning"
    else if ltb h 18
    then txt "Good afternoon"
    else txt "Good evening"

unfoldable pub plural : ℕ → Text → Option Text → Text
plural n one many =
    show n ++ b' ' ∷ (if n == 1 then one else elim many [ none ↦ one ++ txt "s" | some m ↦ m ])

-- The colours of `C` that stand for a status, and the line colour of the uptime bars.
pub data Colour : Type 0 where
  ok warn crit blue muted line_2 : Colour

unfoldable pub host_status_color : HostStatus → Colour
host_status_color HostStatus.online = ok
host_status_color HostStatus.degraded = warn
host_status_color HostStatus.offline = crit
host_status_color HostStatus.pending = muted

unfoldable pub host_status_pill : HostStatus → Text × Text
host_status_pill HostStatus.online = (txt "ok", txt "Online")
host_status_pill HostStatus.degraded = (txt "warn", txt "Degraded")
host_status_pill HostStatus.offline = (txt "crit", txt "Offline")
host_status_pill HostStatus.pending = (txt "muted", txt "Connecting")

unfoldable pub container_color : ContainerState → Health → Colour
container_color ContainerState.running Health.unhealthy = crit
container_color ContainerState.running Health.starting = warn
container_color ContainerState.running _ = ok
container_color ContainerState.restarting _ = warn
container_color ContainerState.paused _ = warn
container_color ContainerState.exited _ = crit
container_color ContainerState.dead _ = crit
container_color _ _ = muted

-- Colours of a load in hundredths of a percent.
unfoldable pub load_color : ℕ → Colour → Colour
load_color p base = if leb 9000 p then crit else if leb 7500 p then warn else base

abbrev pub published : PortMap → Text
published p = show p.host ++ (txt "→" ++ show p.container)

-- `Array.from(new Set(xs))`
unfoldable pub unique_from : List Text → List Text → List Text
unique_from seen [] = []
unique_from seen (x ∷ xs) =
    let rest = unique_from seen xs in
    let more = unique_from (x ∷ seen) xs in if any (text_eq x) seen then rest else x ∷ more

-- `xs.join(", ")`
abbrev pub join_comma : List Text → Text
join_comma [] = []
join_comma (x ∷ []) = x
join_comma (x ∷ y ∷ xs) = x ++ (txt ", " ++ join_comma (y ∷ xs))

unfoldable pub short_sha : Option Text → Text
short_sha none = []
short_sha (some sha) = take 7 sha

-- `(name.trim()[0] ?? "?").toUpperCase()`
unfoldable pub initial : (Text → Text) → Text → Text
initial to_upper name = first (trim name)
  where
    first : Text → Text
    first [] = to_upper (txt "?")
    first (c ∷ s) = to_upper (c ∷ [])

abbrev pub proto_text : PortMapProto → Text
proto_text PortMapProto.tcp = txt "tcp"
proto_text PortMapProto.udp = txt "udp"

abbrev pub first_internal : List PortMap → Text
first_internal [] = txt "no ports"
first_internal (p ∷ ps) = show p.container ++ (b'/' ∷ (proto_text p.proto ++ txt " (internal)"))

unfoldable pub ports_text : List PortMap → Text
ports_text ports =
    let pub_ports = filter (λ (p : PortMap). ltb 0 p.host) ports in
    if is_empty pub_ports
    then first_internal ports
    else join_comma (unique_from [] (map published pub_ports))

unfoldable pub severity_color : Severity → Colour
severity_color Severity.crit = crit
severity_color Severity.warn = warn
severity_color Severity.ok = ok
severity_color Severity.info = blue

-- `none` is "none".
unfoldable pub up_color : Option UpStatus → Colour
up_color (some UpStatus.up) = ok
up_color (some UpStatus.degraded) = warn
up_color (some UpStatus.down) = crit
up_color _ = line_2

abbrev pub state_name : ContainerState → Text
state_name ContainerState.running = txt "Running"
state_name ContainerState.exited = txt "Exited"
state_name ContainerState.paused = txt "Paused"
state_name ContainerState.restarting = txt "Restarting"
state_name ContainerState.created = txt "Created"
state_name ContainerState.dead = txt "Dead"
state_name ContainerState.removing = txt "Removing"

unfoldable pub container_state_label : ContainerState → Health → Text
container_state_label ContainerState.running Health.unhealthy = txt "Unhealthy"
container_state_label ContainerState.running Health.starting = txt "Starting"
container_state_label state _ = state_name state
