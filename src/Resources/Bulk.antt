-- ===== src/Resources/Bulk.antt =====
-- `bulk` and `cleanup` of web/app/(app)/resources/page.tsx: an action on the selected containers is one
-- request to each host; cleaning up is one job for each host that can be reached.
use Prim.Native.Nat.{ℕ}
use app_dockhand.Base.{
  Text, List, Bool, Option, ◌++◌, find, ◌∷◌, [], filter, some, txt, true, if◌then◌else◌, map, false,
  text_eq, is_empty, length, ◌&&◌, ◌+◌, reverse, none, ◌||◌, ltb, take, show, ◌-◌,
}
use app_dockhand.Types.Containers.{Container}
use app_dockhand.Types.Hosts.{HostStatus, Host}
use app_dockhand.Jobs.Track.{ToastKind}
use app_dockhand.Format.{plural}
use mathlib.Core.Option.{none}
use app_dockhand.Base.Sets.{has}

pub data BulkAction : Type 0 where
  start restart stop : BulkAction

-- What the code does to the page and to the API, in order.
pub data BulkEffect : Type 0 where
  ask : Text → List (Text × Text) → BulkEffect
  request : Text → List Text → BulkAction → BulkEffect
  prune : Text → Text → BulkEffect
  toast : ToastKind → Text → Option Text → BulkEffect
  invalidate : Text → BulkEffect

-- The answer to the request of a host: `r.ok` and the errors of `r.failed`, or the message of an error.
pub data HostReply : Type 0 where
  answered : List Text → Option (List Text) → HostReply
  rejected : Text → HostReply

abbrev pub sel_key : Container → Text
sel_key c = c.host_id ++ b'/' ∷ c.id

-- `hostById.get(id)?.name ?? other`; of two hosts with one id the map has the later one.
abbrev pub host_name : List Host → Text → Text → Text
host_name hosts id other = elim (find (λ (h : Host). text_eq h.id id) (reverse hosts)) [
  | none ↦ other
  | some h ↦ h.name
]

-- `byHost.set(k, [...(byHost.get(k) ?? []), id])`
unfoldable pub group_add : Text → Text → List (Text × List Text) → List (Text × List Text)
group_add k id [] = (k, id ∷ []) ∷ []
group_add k id (g ∷ gs) =
    let rest = group_add k id gs in if text_eq g.0 k then (g.0, g.1 ++ id ∷ []) ∷ gs else g ∷ rest

unfoldable pub group_all : List Container → List (Text × List Text) → List (Text × List Text)
group_all [] gs = gs
group_all (c ∷ cs) gs = group_all cs (group_add c.host_id c.id gs)

abbrev pub by_host : List Container → List (Text × List Text)
by_host cs = group_all cs []

-- `picked`
abbrev pub picked : List Container → List Text → List Container
picked cs selected = filter (λ c. has (sel_key c) selected) cs

-- `okN` and `errs` after the replies, in the order in which they come.
unfoldable pub tally : List Host → List (Text × HostReply) → ℕ × List Text → ℕ × List Text
tally hosts [] n = n
tally hosts ((h, answered ok (some failed)) ∷ rs) (n, errs) =
    tally hosts rs (n + length ok, errs ++ failed)
tally hosts ((h, answered ok none) ∷ rs) (n, errs) = tally hosts rs (n + length ok, errs)
tally hosts ((h, rejected message) ∷ rs) (n, errs) =
    tally hosts rs (n, errs ++ ((host_name hosts h (txt "host") ++ (txt ": " ++ message)) ∷ []))

abbrev pub verb : BulkAction → Text
verb BulkAction.start = txt "Started"
verb BulkAction.stop = txt "Stopped"
verb BulkAction.restart = txt "Restarted"

abbrev pub is_stop : BulkAction → Bool
is_stop BulkAction.stop = true
is_stop _ = false

-- `join(" · ")`
abbrev pub join_dots : List Text → Text
join_dots [] = []
join_dots (e ∷ []) = e
join_dots (e ∷ f ∷ es) = e ++ (txt " · " ++ join_dots (f ∷ es))

abbrev pub bulk_toast : BulkAction → ℕ → ℕ → ℕ × List Text → BulkEffect
bulk_toast action wanted hosts (n, errs) =
    if is_empty errs
    then toast ToastKind.ok (verb action ++ (txt " " ++ plural n (txt "container") none))
        (if ltb 1 hosts then some (txt "on " ++ (show hosts ++ txt " hosts")) else none)
    else toast ToastKind.warn (verb action ++ (txt " " ++ (show n ++ (txt " of " ++ show wanted))))
        (some (join_dots (take 2 errs)))

abbrev pub ask_stop : List Host → List Container → BulkEffect
ask_stop hosts cs =
    ask (txt "Stop " ++ (plural (length cs) (txt "container") none ++ txt "?"))
      (map (λ (c : Container). (c.name, host_name hosts c.host_id [])) (take 4 cs))

abbrev pub run_bulk :
    BulkAction → List Host → List Container → List (Text × HostReply) → List BulkEffect
run_bulk action hosts cs replies =
    map (λ (g : Text × List Text). request g.0 g.1 action) (by_host cs)
    ++ bulk_toast action (length cs) (length (by_host cs)) (tally hosts replies (0, []))
      ∷ invalidate (txt "/api/containers")
      ∷ invalidate (txt "/api/hosts")
      ∷ invalidate (txt "/api/overview")
      ∷ []

-- `bulk`, with whether the user consents where it asks: its effects, and the selection that it leaves.
unfoldable pub bulk :
    BulkAction
    → Bool
    → List Host
    → List Container
    → List Text
    → List (Text × HostReply)
    → List BulkEffect × List Text
bulk action consent hosts containers selected replies =
    let cs = picked containers selected in
    if is_stop action
    then if consent
      then (ask_stop hosts cs ∷ run_bulk action hosts cs replies, [])
      else (ask_stop hosts cs ∷ [], selected)
    else (run_bulk action hosts cs replies, [])

abbrev pub is_reachable : HostStatus → Bool
is_reachable HostStatus.offline = false
is_reachable HostStatus.pending = false
is_reachable _ = true

-- `targets`; an empty filter is every host.
abbrev pub targets : List Host → Text → List Host
targets hosts host_f =
    filter (λ h. is_reachable h.status && (is_empty host_f || text_eq h.id host_f)) hosts

abbrev pub ask_cleanup : Host → List Host → BulkEffect
ask_cleanup h hs =
    ask
      (if is_empty hs
        then txt "Clean up " ++ (h.name ++ txt "?")
        else txt "Clean up " ++ (plural (length (h ∷ hs)) (txt "host") none ++ txt "?"))
      (map (λ (h : Host). (h.name, show (h.total - h.running) ++ txt " stopped")) (take 5 (h ∷ hs)))

abbrev pub cleanup_jobs : Bool → List Host → List BulkEffect
cleanup_jobs consent [] = []
cleanup_jobs consent (h ∷ hs) =
    ask_cleanup h hs ∷ (if consent then map (λ (h : Host). prune h.id h.name) (h ∷ hs) else [])

unfoldable pub cleanup : Bool → List Host → Text → List BulkEffect
cleanup consent hosts host_f = cleanup_jobs consent (targets hosts host_f)
