-- ===== src/Shell/Nav.antt =====
-- `MAIN`, `Dock` and `CreateMenu` of web/components/shell/AppShell.tsx: which page the dock marks, its
-- badge, and where its menu leads. `Math.round(h.cpu)` is `cpu`, a whole number here.
use app_dockhand.Base.{
  none, some, refl, ℕ, Bool, Text, List, Option, not, text_eq, txt, ◌∷◌, if◌then◌else◌, ◌==◌, find,
  [], all, any, ◌||◌, map, suc, ltb, show, is_empty, starts_with, ◌++◌, ◌≡◌, span, drop, true,
  false, Bool-cases, span-all, inl, text_eq_sound, inr, arith,
}
use app_dockhand.Types.Hosts.{Host, HostStatus}

-- The tests of the paths, in the order of the dock.
abbrev pub is_fleet : Text → Bool
is_fleet p = text_eq p (txt "/") || starts_with p (txt "/hosts")

abbrev pub prefixes : List Text
prefixes =
    txt "/resources"
    ∷ txt "/machines"
    ∷ txt "/deploy"
    ∷ txt "/uptime"
    ∷ txt "/alerts"
    ∷ txt "/settings"
    ∷ []

abbrev pub matches : Text → List (Text → Bool)
matches p = is_fleet ∷ map (λ s. λ q. starts_with q s) prefixes

-- `findIndex`
abbrev pub index_of : ℕ → List (Text → Bool) → Text → Option ℕ
index_of i [] p = none
index_of i (f ∷ fs) p = if f p then some i else index_of (suc i) fs p

unfoldable pub active_idx : Text → Option ℕ
active_idx p = index_of 0 (matches p) p

abbrev pub hrefs : List Text
hrefs =
    txt "/"
    ∷ txt "/resources"
    ∷ txt "/machines"
    ∷ txt "/deploy"
    ∷ txt "/uptime"
    ∷ txt "/alerts"
    ∷ txt "/settings/hosts"
    ∷ []

-- What a click on an item does.
pub data Visit : Type 0 where
  notifications : Visit
  page : Text → Visit

unfoldable pub visit : Text → Visit
visit href = if text_eq href (txt "/alerts") then notifications else page href

-- The indicator is where the pointer is, or on the page's own item.
unfoldable pub ind_idx : Option ℕ → Text → Option ℕ
ind_idx (some i) p = some i
ind_idx none p = active_idx p

unfoldable pub badge : ℕ → Option Text
badge unread =
    if ltb 0 unread then some (if ltb 99 unread then txt "99+" else show unread) else none

unfoldable pub host_sub : Host → Text
host_sub h = elim h.status [
  | HostStatus.offline ↦ txt "offline"
  | _ ↦ show h.running ++ (txt " running · " ++ (show h.cpu ++ txt "% cpu"))
]

-- `[^/?#]+` behind "/hosts/"
abbrev pub is_id_unit : ℕ → Bool
is_id_unit c = not (c == b'/' || c == b'?' || c == b'#')

abbrev pub id_of : Text → Option Text
id_of s = if is_empty (span is_id_unit s).0 then none else some (span is_id_unit s).0

unfoldable pub host_id_of : Text → Option Text
host_id_of p = if starts_with p (txt "/hosts/") then id_of (drop 7 p) else none

abbrev pub find_host : List Host → Option Text → Option Host
find_host hosts none = none
find_host hosts (some id) = find (λ (h : Host). text_eq h.id id) hosts

unfoldable pub create_host : List Host → Text → Option Host
create_host hosts p = find_host hosts (host_id_of p)

abbrev pub host_query : Option Host → Text
host_query none = []
host_query (some h) = txt "&host=" ++ h.id

-- The pages that the menu leads to.
unfoldable pub create_hrefs : List Host → Text → List Text
create_hrefs hosts p =
    let q = host_query (create_host hosts p) in
    (txt "/deploy?mode=image" ++ q)
    ∷ (txt "/deploy?mode=git" ++ q)
    ∷ (txt "/deploy?mode=compose" ++ q)
    ∷ []

span-id : (id : Text) → all is_id_unit id ≡ true → is_empty id ≡ false → id_of id ≡ some id
span-id id h e = rw (span-all is_id_unit id h, e) refl

find_self :
    (hosts : List Host) (h : Host)
    → any (λ (g : Host). text_eq g.id h.id) hosts ≡ true
    → (g : Host) × (find (λ (g : Host). text_eq g.id h.id) hosts ≡ some g) × (g.id ≡ h.id)
find_self [] h m = cc
find_self (g ∷ gs) h m = elim (Bool-cases (text_eq g.id h.id)) [
  | inl y ↦ (g, rw y refl, text_eq_sound g.id h.id y)
  | inr off ↦ let (k, e, q) = find_self gs h (ground arith) in (k, rw off e, q)
]

is_fleet-host : (id : Text) → active_idx (txt "/hosts/" ++ id) ≡ some 0
unfolding active_idx text_eq starts_with
is_fleet-host id = refl

host_id_of-host :
    (id : Text)
    → all is_id_unit id ≡ true
    → is_empty id ≡ false
    → host_id_of (txt "/hosts/" ++ id) ≡ some id
unfolding host_id_of starts_with
host_id_of-host id h e = span-id id h e

-- On the page of a host of the list, whose id has no "/", "?" or "#", the dock marks the fleet, and
-- its menu leads to forms that deploy to a host with that id.
pub create_hrefs-host :
    (hosts : List Host) (h : Host)
    → any (λ (g : Host). text_eq g.id h.id) hosts ≡ true
    → all is_id_unit h.id ≡ true
    → is_empty h.id ≡ false
    → (active_idx (txt "/hosts/" ++ h.id) ≡ some 0)
      × (create_hrefs hosts (txt "/hosts/" ++ h.id)
          ≡ map
              (λ s. s ++ txt "&host=" ++ h.id)
              (txt "/deploy?mode=image" ∷ txt "/deploy?mode=git" ∷ txt "/deploy?mode=compose" ∷ []))
unfolding create_hrefs create_host
create_hrefs-host hosts h m a e =
    let (g, found, same) = find_self hosts h m in
    (is_fleet-host h.id, rw (host_id_of-host h.id a e, found, same) refl)
