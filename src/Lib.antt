-- ===== src/Lib.antt =====
-- A model of the web interface of Dockhand (web/), the part of the program that runs in the
-- browser: it keeps what the API reports, decides what to show of it, and sends requests.
--
-- Base, and the modules below it, hold what the other modules share: Boolean tests, list
-- operations, integers, a stable sort by a comparator, and texts as lists of UTF-16 code units with
-- the string operations of JavaScript that the source uses. A loop over a list or a text is a
-- recursion over it, so no fuel is needed but for the digits of a number, where n + 1 rounds are
-- given for the number n and fewer are used.
--
-- Types (web/lib/types.ts) is the data that the API serialises: a record for each interface and a
-- data type for each union, in a file for each section of the source.
--
-- Containers (web/lib/containerFilters.ts) is the filters and the sorting of the container views.
-- visible_containers, sort_by, status_counts, matches_status and match_text are visibleContainers,
-- sortBy, statusCounts, matchesStatus and matchText. Status is about the filters and the ranks, Order
-- about sorting, Arranged about what the keys mean, Visible about what a view shows. Dates that cannot be
-- read, and those before 1970, are not modelled.
--
-- Jobs is how a job of the server is followed. Track (web/components/host/jobs.ts) is trackJob as a
-- function of the answers to its polls, with its effects in order; Poll (web/lib/api.ts) is the hook
-- useJob as a step function on its state; Progress (web/components/jobs/JobProgress.tsx) is the
-- percentage, the current step, the short labels and the elapsed time.
--
-- Ssh (web/lib/customSsh.ts) is the logins to other machines: the browser's storage of the recent ones
-- (Recent) and of the host keys (Known), and what a destination looks like as a text (Destination,
-- with RoundTrip about reading back what was printed).
--
-- SshConfig (web/components/settings/hosts-lib.ts) is the import of hosts from an SSH configuration:
-- Lines takes the text apart as the regular expressions do, SshConfig makes entries of the lines,
-- Steps is the list of the steps of a connection test.
--
-- Terminal (web/components/shell/TerminalWindow.tsx) is the floating terminal window. Terminal has its
-- geometry, its storage and the events of the pointer (frame_step), Tabs the tabs (tab_step), Status
-- what is known of the sessions (patch_status), Titles what a tab is called, for which it uses Ssh.
-- Screen, Frames, Keys and Targets are the proofs. Pixels are whole numbers.
--
-- Logs (web/components/host/logStream.tsx) is the stream of a container's log: log_step is one run of
-- the effect of useLogStream, from the connection to its cleanup, and Level is detectLevel and the
-- removal of escape sequences.
--
-- Shortcuts (web/components/shell/Shortcuts.tsx) is the key handler of the page, on_key.
--
-- Deploy (web/components/deploy/shared.tsx) is what the deploy forms share: parse_dotenv, hash_color
-- and the texts about issues; Merge is mergeKV, Check is the hook useDeployCheck as a step function.
--
-- Image (web/components/deploy/ImageFlow.tsx) is the flow that runs an image. Image has the helpers for
-- names (with_tag, repo_of, split_registry, default_name), Quote shellQuote, Command the command that the
-- form shows and the request that it sends, Form what the form is filled with. Quote also has a reader
-- of words as a POSIX shell has it, which the source has not; Parts and Argv are about reading the
-- command with it.
--
-- Shell (web/components/shell/AppShell.tsx, web/lib/theme.ts) is what the application keeps for all its
-- pages: Toasts, Confirm, Theme, and the marks and the menu of the dock (Nav). Terminals is the requests
-- for terminals together with the window that they open, for which it uses Terminal.Tabs.
--
-- Palette (web/components/shell/CommandPalette.tsx) is the command palette: Items has its entries, Score
-- and Results how they are found and grouped, Move its keys. Subsequence is about what is found, Best
-- about the order of what is shown.
--
-- Fleet (web/components/fleet/FleetPulse.tsx) is the fleet page's panel: Pulse has its headline and rows,
-- Offers and Suggestions what is worth doing next; Next is about which of that there is, Listed about what
-- of it the page lists.
--
-- Uptime (web/components/uptime/bars.ts) is the rows of the uptime bars, with the summary of the alerts
-- (web/components/alerts/actions.ts). Its loop runs on fuel; as many rounds as there are to be rows are
-- enough. Api (web/lib/api.ts) is the client of the API: what is made of an answer.
--
-- Updates (web/components/settings/UpdatesTab.tsx) is the watcher of an update of Dockhand,
-- UpdaterWatch, as a step function on its events, with Stages for its log; Watch is about its bar.
-- Machines (web/app/(app)/machines/page.tsx) is the machine that the page shows and its numbers; Params
-- is the parameters of its address.
--
-- Resources (web/app/(app)/resources/page.tsx) is the page of all resources: its address, which View is
-- about; Bulk has the actions on several hosts, which Groups is about; Page is the page as a state
-- machine, with Selection about what is selected; Rows has the rows of its lists.
--
-- Session (web/components/host/XTerm.tsx) is one connection of an interactive terminal as a step function
-- on the events of its socket: Course and Runs are about what it reports and sends, Over about what comes
-- after its cleanup. Settings (web/components/settings/common.tsx) is the hook useSettings: Merge is about
-- mergeSettings, Saves about saves one after the other, with answers that are lost, and Overlap about a
-- save that is refused while others are under way.
--
-- Sidecar (web/components/sidecar/ContainerSidecar.tsx) is the tabs of a container and the editing of its
-- environment, whose requests Sent is about. Git (web/components/deploy/GitFlow.tsx) is the form that
-- deploys a repository: Path is about its path and the name of its stack, Seed about its variables. Mcp
-- (web/components/settings/McpTab.tsx) is what the tab of MCP saves: Tools is about the permissions of
-- the tools, Port about the field of the port.
--
-- Actions (web/components/host/ContainersTab.tsx) is what the buttons of a container do: they ask, send
-- one request and follow its job with Jobs; Requests is about what is requested, and when.
--
-- Pull (web/components/dialogs/PullDialog.tsx) is the dialog that pulls an image; Whole is about the
-- name that it shows.
--
-- Compose (web/components/dialogs/ComposeEditor.tsx) is the editor of compose files: the colours of its
-- lines, about which Draws is, its Tab key in Keys, and useComposeValidation in Validation, as a step
-- function, about which Current is. Login (web/app/login/page.tsx) is where the login page leads and what
-- its form sends.
--
-- PublicStatus (web/app/status/page.tsx) is what the public page says of all monitors together, and
-- Setup (web/app/setup/page.tsx) is how strong the setup page calls a password.
--
-- Format (web/lib/format.ts) is how sizes, durations, states and ports are shown; Sizes is about the
-- unit that is chosen for a size.
--
-- The parts meet in the data of Types; Terminal calls Ssh for the names of its tabs, Shell opens the
-- tabs of Terminal, Palette asks Shell for dialogs and Terminal for targets, and Image merges variables
-- as Deploy does. A hook of React is a record of its state and refs and a step function on its events: a
-- change of its inputs, an answer, a timer, the cleanup. So every order of answers and timers is a list of
-- events.
--
-- What JavaScript and the browser do is a parameter where the source relies on it: lower case, the
-- comparison of texts by locale, the reading of dates, JSON, the printing of decimals, the server's
-- answer to a check. A theorem about sorting asks for a consistent comparison, which the comparison by
-- code units is.
--
-- Not modelled: the rendering; the formatting of dates and of decimals; the charts, of which Chart.tsx is
-- generated by a tool; the other pages, panels and dialogs, most of which send single requests; the
-- server (a program in Go) and its database; the prototype in design; a line that holds an end of a line
-- other than those it is split at.
pub mod Setup
pub mod PublicStatus
pub mod Base
pub mod Types
pub mod Containers
pub mod Jobs
pub mod Ssh
pub mod Terminal
pub mod SshConfig
pub mod Logs
pub mod Shortcuts
pub mod Deploy
pub mod Format
pub mod Image
pub mod Shell
pub mod Palette
pub mod Fleet
pub mod Api
pub mod Uptime
pub mod Updates
pub mod Machines
pub mod Mcp
pub mod Compose
pub mod Login
pub mod Actions
pub mod Pull
pub mod Git
pub mod Sidecar
pub mod Settings
pub mod Session
pub mod Resources
