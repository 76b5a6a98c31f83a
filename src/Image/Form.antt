-- ===== src/Image/Form.antt =====
-- The state of `ImageConfigure` of web/components/deploy/ImageFlow.tsx: what its effects put in, and what
-- the fixes of the checks change.
use app_dockhand.Base.{
  none, some, refl, ℕ, Bool, true, List, Text, text_eq, Option, is_letter, ◌||◌, ◌||◌, false,
  filter, ◌∷◌, split_first, starts_with, reverse, txt, map, [], is_digit, any, ◌==◌, if◌then◌else◌,
  ◌++◌, is_empty, not, trim, ◌≡◌, ◌&&◌, all, Bool-cases, inl, inr, ap, sym, text_eq_sound, ◌∙◌,
  arith, text_eq_refl,
}
use app_dockhand.Types.Hosts.{Host, HostStatus}
use app_dockhand.Types.Storage.{Network}
use app_dockhand.Types.Containers.{Kv}
use app_dockhand.Format.{unique_from}
use app_dockhand.Deploy.Merge.{merge_kv}
use app_dockhand.Image.{default_name, last_part}
use app_dockhand.Image.Command.{ImageForm, Pair, is_set, cname}

abbrev pub is_usable : Host → Bool
is_usable h = elim h.status [ HostStatus.online ↦ true | HostStatus.degraded ↦ true | _ ↦ false ]

-- `hosts`
unfoldable pub usable_hosts : List Host → List Host
usable_hosts hs = filter is_usable hs

-- The host stays if it can be used; else it is the first one that can.
unfoldable pub pick_host : List Host → Text → Text
pick_host [] host_id = host_id
pick_host (h ∷ hs) host_id =
    if any (λ (g : Host). text_eq g.id host_id) (h ∷ hs) then host_id else h.id

-- `p.split("/")[0]`
abbrev pub before_slash : Text → Text
before_slash p = elim (split_first b'/' p) [ none ↦ p | some (a, b) ↦ a ]

-- `p.endsWith("/udp")`
abbrev pub ends_with : Text → Text → Bool
ends_with s t = starts_with (reverse s) (reverse t)

unfoldable pub seed_port : Text → Pair
seed_port p = record {
  a = before_slash p;
  b = if ends_with p (txt "/udp") then p else before_slash p;
}

-- `v.split("/").filter(Boolean).pop() ?? "data"`
abbrev pub drop_slashes : Text → Text
drop_slashes [] = []
drop_slashes (c ∷ s) = if c == b'/' then drop_slashes s else c ∷ s

abbrev pub last_name : Text → Text
last_name v =
    let s = reverse (drop_slashes (reverse v)) in if is_empty s then txt "data" else last_part s

abbrev pub is_path : Kv → Bool
is_path e = text_eq e.k (txt "PATH")

unfoldable pub seed_env : List Kv → List Pair
seed_env env = map (λ (e : Kv). record { a = e.k; b = e.v }) (filter (λ e. not (is_path e)) env)

unfoldable pub net_options : List Network → List Text
net_options nets = unique_from [] (
    txt "bridge"
    ∷ txt "host"
    ∷ map (λ (n : Network). n.name)
        (filter (λ (n : Network). not n.system && not (text_eq n.driver (txt "null"))) nets))

-- A network that the host does not have becomes the default one, once the networks are known.
unfoldable pub keep_network : Option (List Network) → Text → Text
keep_network none network = network
keep_network (some nets) network =
    if any (text_eq network) (net_options nets) then network else txt "bridge"

abbrev pub is_filled : Pair → Bool
is_filled e = is_set e.a || is_set e.b

unfoldable pub set_env_vars : List Kv → List Pair → List Pair
set_env_vars vars cur =
    merge_kv (λ (e : Pair). e.a) (λ row (kv : Kv). record { a = kv.k; b = kv.v })
      (filter is_filled cur) vars

-- The ports of a patch, from and to.
abbrev pub moved : List (record { from : Text; to : Text }) → Pair → Pair
moved [] r = r
moved (p ∷ ps) r = if text_eq p.from (trim r.a) then record r { a = p.to } else moved ps r

unfoldable pub move_ports : List (record { from : Text; to : Text }) → List Pair → List Pair
move_ports ps rows = map (moved ps) rows

-- `/^[a-zA-Z0-9][a-zA-Z0-9_.-]*$/`
abbrev pub is_name_start : ℕ → Bool
is_name_start c = is_letter c || is_digit c

abbrev pub is_name_rest : ℕ → Bool
is_name_rest c = is_name_start c || c == b'_' || c == b'.' || c == b'-'

unfoldable pub is_container_name : Text → Bool
is_container_name [] = false
is_container_name (c ∷ s) = is_name_start c && all is_name_rest s

-- Why `run` sends nothing, if it does not.
pub data Refusal : Type 0 where
  no_host invalid_name : Refusal

module _ (to_lower : Text → Text) where
  unfoldable pub seed_volume : Text → Text → Pair
  seed_volume image v = record { a = default_name to_lower image ++ (b'_' ∷ last_name v); b = v }

  unfoldable pub refusal : ImageForm → Option Refusal
  refusal f = elim f.host [
    | none ↦ some no_host
    | some h ↦ if is_container_name (cname to_lower f) then none else some invalid_name
  ]

unique_from-any :
    (seen xs : List Text) (x : Text)
    → (any (text_eq x) seen || any (text_eq x) (unique_from seen xs))
      ≡ (any (text_eq x) seen || any (text_eq x) xs)
unfolding unique_from
unique_from-any seen [] x = refl
unique_from-any seen (y ∷ ys) x =
    let same : text_eq x y ≡ true → any (text_eq x) seen ≡ any (text_eq y) seen =
      λ e. ap (λ z. any (text_eq z) seen) (text_eq_sound x y e) in
    ground (arith, same, unique_from-any seen ys x, unique_from-any (y ∷ seen) ys x)

-- The networks of the host that can be chosen besides the two that each host has.
abbrev pub custom_names : List Network → List Text
custom_names nets =
    map (λ (n : Network). n.name)
      (filter (λ (n : Network). not n.system && not (text_eq n.driver (txt "null"))) nets)

net_options-any :
    (nets : List Network) (x : Text)
    → any (text_eq x) (net_options nets)
      ≡ any (text_eq x) (txt "bridge" ∷ txt "host" ∷ custom_names nets)
unfolding net_options
net_options-any nets x = unique_from-any [] (txt "bridge" ∷ txt "host" ∷ custom_names nets) x

-- Once the networks are known, the form has one that is offered: it keeps its own if that is the
-- bridge, the host's or a custom one of the host, and takes the bridge otherwise.
pub keep_network-offered :
    (nets : List Network) (network : Text)
    → (any (text_eq (keep_network (some nets) network)) (net_options nets) ≡ true)
      × (keep_network (some nets) network ≡ (
          if any (text_eq network) (txt "bridge" ∷ txt "host" ∷ custom_names nets)
          then network
          else txt "bridge"))
unfolding keep_network
keep_network-offered nets network = elim (Bool-cases (any (text_eq network) (net_options nets))) [
  | inl y ↦ rw y (y, rw (sym (net_options-any nets network), y) refl)
  | inr off ↦ rw off (
    net_options-any nets (txt "bridge") ∙ rw (text_eq_refl (txt "bridge")) refl,
    rw (sym (net_options-any nets network), off) refl,
  )
]
