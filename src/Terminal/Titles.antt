-- ===== src/Terminal/Titles.antt =====
-- web/components/shell/TerminalWindow.tsx: what a tab is called, and the command that stands for it.
use app_dockhand.Base.{
  ℕ, Bool, List, Text, true, Option, find, ◌++◌, false, if◌then◌else◌, take, some, txt, [], text_eq,
  ◌∷◌, is_empty, ◌==◌, reverse, ◌||◌, show, ◌≡◌, arith,
}
use app_dockhand.Ssh.{ssh_dest, ssh_command, CustomSshConn}
use app_dockhand.Types.Hosts.{Host, HostMethod}
use app_dockhand.Types.Containers.{Container}
use app_dockhand.Terminal.Tabs.{TerminalTarget, ssh, shell, exec, logs}
use mathlib.Core.Option.{none, none, none}

-- A `Map` from a list keeps the last entry of a key.
abbrev pub host_by_id : List Host → Text → Option Host
host_by_id hosts id = find (λ (h : Host). text_eq h.id id) (reverse hosts)

abbrev pub ctr_key : Text → Text → Text
ctr_key host_id id = host_id ++ b'/' ∷ id

abbrev pub ctr_by_id : List Container → Text → Option Container
ctr_by_id containers key =
    find (λ (c : Container). text_eq (ctr_key c.host_id c.id) key) (reverse containers)

abbrev pub is_local : HostMethod → Bool
is_local HostMethod.local = true
is_local _ = false

-- `h.user || "root"`
abbrev pub user_of : Host → Text
user_of h = if is_empty h.user then txt "root" else h.user

abbrev pub name_or_id : Option Container → Text → Text
name_or_id none container_id = take 12 container_id
name_or_id (some c) container_id = c.name

abbrev pub ctr_name : List Container → Text → Text → Option Text → Text
ctr_name containers host_id container_id (some name) = name
ctr_name containers host_id container_id none =
    name_or_id (ctr_by_id containers (ctr_key host_id container_id)) container_id

abbrev pub shell_label : Option Host → Text
shell_label none = txt "host shell"
shell_label (some h) = (if is_local h.method then txt "root" else user_of h) ++ b'@' ∷ h.name

unfoldable pub label : List Host → List Container → TerminalTarget → Text
label hosts containers (ssh id conn) = ssh_dest conn.address conn.port conn.user
label hosts containers (shell host_id) = shell_label (host_by_id hosts host_id)
label hosts containers (exec host_id container_id name) =
    ctr_name containers host_id container_id name
label hosts containers (logs host_id container_id name) =
    ctr_name containers host_id container_id name ++ txt " · logs"

abbrev pub port_option : ℕ → Text
port_option port = if port == 0 || port == 22 then [] else txt " -p " ++ show port

abbrev pub shell_meta : Option Host → Text
shell_meta none = txt "ssh"
shell_meta (some h) =
    if is_local h.method
    then txt "nsenter -t 1 (host shell)"
    else txt "ssh " ++ (user_of h ++ (b'@' ∷ (h.address ++ port_option h.port)))

abbrev pub on_host : Option Host → Text
on_host none = []
on_host (some h) = txt " · " ++ h.name

unfoldable pub meta : List Host → List Container → TerminalTarget → Text
meta hosts containers (ssh id conn) = ssh_command conn.address conn.port conn.user
meta hosts containers (shell host_id) = shell_meta (host_by_id hosts host_id)
meta hosts containers (exec host_id container_id name) =
    txt "docker exec -it "
    ++ (ctr_name containers host_id container_id name
        ++ (txt " bash" ++ on_host (host_by_id hosts host_id)))
meta hosts containers (logs host_id container_id name) =
    txt "docker logs -f "
    ++ (ctr_name containers host_id container_id name ++ on_host (host_by_id hosts host_id))

-- The command that stands for the shell of a host that is known and not local is the one that a login
-- of its user, or of root, to its address and port would have.
meta-ssh_command :
    (hosts : List Host) (containers : List Container) (host_id id : Text) (h : Host)
    (conn : CustomSshConn)
    → host_by_id hosts host_id ≡ some h
    → is_local h.method ≡ false
    → conn.address ≡ h.address
    → conn.port ≡ h.port
    → conn.user ≡ user_of h
    → meta hosts containers (shell host_id) ≡ meta hosts containers (ssh id conn)
unfolding meta ssh_command
meta-ssh_command hosts containers host_id id h conn found remote a p u =
    rw (found, remote, a, p, u) (ground arith)
