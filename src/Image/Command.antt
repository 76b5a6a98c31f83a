-- ===== src/Image/Command.antt =====
-- `ImageConfigure` of web/components/deploy/ImageFlow.tsx: the container that the form describes, the
-- `docker run` command that it shows and the request that it sends.
use app_dockhand.Base.{
  Bool, Text, List, text_eq, Option, not, filter, txt, trim, ◌∷◌, [], if◌then◌else◌, is_empty, map,
  ◌++◌, ◌&&◌, none, some,
}
use app_dockhand.Image.{default_name}
use app_dockhand.Types.Containers.{RunContainerInput, RunContainerInputRestart}
use app_dockhand.Image.Quote.{shell_quote}

-- `Pair` of web/components/deploy/shared.tsx
pub record Pair : Type 0 where
  pub a : Text
  pub b : Text

pub record ImageForm : Type 0 where
  pub image : Text
  pub name : Text
  pub restart : RunContainerInputRestart
  pub host : Option Text
  pub ports : List Pair
  pub vols : List Pair
  pub env : List Pair
  pub network : Text
  pub traefik : Bool
  pub domain : Text

abbrev pub is_set : Text → Bool
is_set s = not (is_empty (trim s))

abbrev pub clean_ports : ImageForm → List Pair
clean_ports f = filter (λ (p : Pair). is_set p.b) f.ports

abbrev pub clean_vols : ImageForm → List Pair
clean_vols f = filter (λ (v : Pair). is_set v.a && is_set v.b) f.vols

abbrev pub clean_env : ImageForm → List Pair
clean_env f = filter (λ (e : Pair). is_set e.a) f.env

abbrev pub restart_text : RunContainerInputRestart → Text
restart_text RunContainerInputRestart.never = txt "no"
restart_text RunContainerInputRestart.always = txt "always"
restart_text RunContainerInputRestart.unless_stopped = txt "unless-stopped"
restart_text RunContainerInputRestart.on_failure = txt "on-failure"

abbrev pub is_host_network : ImageForm → Bool
is_host_network f = text_eq f.network (txt "host")

abbrev pub port_text : Pair → Text
port_text p = if is_set p.a then trim p.a ++ (b':' ∷ trim p.b) else trim p.b

abbrev pub volume_text : Pair → Text
volume_text v = trim v.a ++ (b':' ∷ trim v.b)

abbrev pub variable_text : Pair → Text
variable_text e = trim e.a ++ (b'=' ∷ e.b)

-- `parts.join(" \\\n  ")`
abbrev pub line_break : Text
line_break = 32 ∷ 92 ∷ 10 ∷ 32 ∷ 32 ∷ []

unfoldable pub join_parts : List Text → Text
join_parts [] = []
join_parts (p ∷ []) = p
join_parts (p ∷ q ∷ ps) = p ++ (line_break ++ join_parts (q ∷ ps))

-- The optional parts, each in its place.
abbrev pub restart_parts : RunContainerInputRestart → List Text
restart_parts RunContainerInputRestart.never = []
restart_parts r = (txt "--restart " ++ restart_text r) ∷ []

abbrev pub port_parts : ImageForm → List Text
port_parts f = if is_host_network f then [] else map (λ p. txt "-p " ++ port_text p) (clean_ports f)

abbrev pub volume_parts : ImageForm → List Text
volume_parts f = map (λ v. txt "-v " ++ shell_quote (volume_text v)) (clean_vols f)

abbrev pub env_parts : ImageForm → List Text
env_parts f = map (λ e. txt "-e " ++ shell_quote (variable_text e)) (clean_env f)

abbrev pub network_parts : ImageForm → List Text
network_parts f =
    if text_eq f.network (txt "bridge")
    then []
    else (txt "--network " ++ shell_quote f.network) ∷ []

module _ (to_lower : Text → Text) where
  unfoldable pub cname : ImageForm → Text
  cname f = if is_set f.name then trim f.name else default_name to_lower f.image

  unfoldable pub rule_text : ImageForm → Text
  rule_text f =
      txt "traefik.http.routers."
      ++ (cname f
          ++ (txt ".rule=Host(`"
              ++ (cname f
                  ++ (b'.'
                      ∷ ((if is_empty f.domain then txt "<domain>" else f.domain) ++ txt "`)")))))

  abbrev pub traefik_parts : ImageForm → List Text
  traefik_parts f =
      if f.traefik
      then txt "-l traefik.enable=true" ∷ (txt "-l " ++ shell_quote (rule_text f)) ∷ []
      else []

  unfoldable pub parts : ImageForm → List Text
  parts f =
      (txt "docker run -d" ∷ (txt "--name " ++ shell_quote (cname f)) ∷ [])
      ++ (restart_parts f.restart
          ++ (port_parts f
              ++ (volume_parts f
                  ++ (env_parts f
                      ++ (network_parts f ++ (traefik_parts f ++ shell_quote f.image ∷ []))))))

  unfoldable pub command : ImageForm → Text
  command f = join_parts (parts f)

  -- `body`
  unfoldable pub run_input : ImageForm → RunContainerInput
  run_input f = record {
    host_id = elim f.host [ none ↦ [] | some id ↦ id ];
    image = f.image;
    name = cname f;
    restart = f.restart;
    ports =
        if is_host_network f
        then []
        else map (λ (p : Pair). record { host = trim p.a; container = trim p.b }) (clean_ports f);
    volumes = map (λ (v : Pair). record { src = trim v.a; dst = trim v.b }) (clean_vols f);
    env = map (λ (e : Pair). record { k = trim e.a; v = e.b }) (clean_env f);
    network = f.network;
    traefik = f.traefik;
  }
