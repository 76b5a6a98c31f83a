-- ===== src/Image/Argv.antt =====
-- What a shell makes of the command that the form shows.
use app_dockhand.Base.{
  refl, Bool, Text, List, All, ◌∷◌, ◌≡◌, all, [], if◌then◌else◌, txt, ◌++◌, some, map, text_eq,
  ◌&&◌, not, is_empty, true, Bool-cases, inl, inr,
}
use app_dockhand.Types.Containers.{RunContainerInputRestart}
use app_dockhand.Image.Quote.{
  read_text, shell_words, gap, read_unit, is_safe, shell_quote, read_text-shell_quote,
  read_text_word,
}
use app_dockhand.Image.Command.{
  ImageForm, Pair, restart_parts, network_parts, traefik_parts, restart_text, is_host_network,
  rule_text, cname, clean_ports, port_text, volume_text, port_parts, clean_vols, variable_text,
  clean_env, volume_parts, env_parts, command, parts,
}
use mathlib.Core.Bool.{false}
use app_dockhand.Image.Parts.{
  concat, Agrees, IsPart, flag-IsPart, Agrees-map, Agrees-append, IsPart-shell_words, All_unit,
  word-IsPart, join_parts-IsPart,
}

-- The text of a port holds nothing that a shell takes apart; unlike the other values it is not quoted.
abbrev pub IsPlainPort : Pair → Type 0
IsPlainPort p = (all is_safe (port_text p) && not (is_empty (port_text p))) ≡ true

-- The arguments that the form describes, each with its flag.
abbrev pub restart_argv : RunContainerInputRestart → List (List Text)
restart_argv RunContainerInputRestart.never = []
restart_argv r = (txt "--restart" ∷ restart_text r ∷ []) ∷ []

abbrev pub port_argv : ImageForm → List (List Text)
port_argv f =
    if is_host_network f then [] else map (λ p. txt "-p" ∷ port_text p ∷ []) (clean_ports f)

abbrev pub volume_argv : ImageForm → List (List Text)
volume_argv f = map (λ v. txt "-v" ∷ volume_text v ∷ []) (clean_vols f)

abbrev pub env_argv : ImageForm → List (List Text)
env_argv f = map (λ e. txt "-e" ∷ variable_text e ∷ []) (clean_env f)

abbrev pub network_argv : ImageForm → List (List Text)
network_argv f =
    if text_eq f.network (txt "bridge") then [] else (txt "--network" ∷ f.network ∷ []) ∷ []

module _ (to_lower : Text → Text) where
  abbrev pub traefik_argv : ImageForm → List (List Text)
  traefik_argv f =
      if f.traefik
      then (txt "-l" ∷ txt "traefik.enable=true" ∷ []) ∷ (txt "-l" ∷ rule_text to_lower f ∷ []) ∷ []
      else []

  abbrev pub options_argv : ImageForm → List (List Text)
  options_argv f =
      (txt "--name" ∷ cname to_lower f ∷ [])
      ∷ (restart_argv f.restart
          ++ (port_argv f
              ++ (volume_argv f
                  ++ (env_argv f ++ (network_argv f ++ (traefik_argv f ++ (f.image ∷ []) ∷ []))))))

  abbrev pub argv : ImageForm → List (List Text)
  argv f = (txt "docker" ∷ txt "run" ∷ txt "-d" ∷ []) ∷ options_argv f

-- A flag with a quoted text.
quoted-IsPart :
    (flag f s : Text)
    → read_text gap flag ≡ some (gap, f ∷ [])
    → IsPart (flag ++ shell_quote s) (f ∷ s ∷ [])
quoted-IsPart flag f s h = flag-IsPart flag (shell_quote s) f s h (read_text-shell_quote s)

restart-Agrees : (r : RunContainerInputRestart) → Agrees (restart_parts r) (restart_argv r)
unfolding read_text read_unit
restart-Agrees RunContainerInputRestart.never = tt
restart-Agrees RunContainerInputRestart.always =
    (flag-IsPart (txt "--restart ") (txt "always") (txt "--restart") (txt "always") refl refl, tt)
restart-Agrees RunContainerInputRestart.unless_stopped = (
  flag-IsPart (txt "--restart ") (txt "unless-stopped") (txt "--restart") (txt "unless-stopped")
      refl refl,
  tt,
)
restart-Agrees RunContainerInputRestart.on_failure = (
  flag-IsPart (txt "--restart ") (txt "on-failure") (txt "--restart") (txt "on-failure") refl refl,
  tt,
)

port-Agrees :
    (f : ImageForm) → All IsPlainPort (clean_ports f) → Agrees (port_parts f) (port_argv f)
unfolding read_text read_unit
port-Agrees f h = elim (Bool-cases (is_host_network f)) [
  | inl y ↦ rw y tt
  | inr off ↦ rw off (
      Agrees-map IsPlainPort (λ p. txt "-p " ++ port_text p) (λ p. txt "-p" ∷ port_text p ∷ [])
        (λ p k.
          flag-IsPart (txt "-p ") (port_text p) (txt "-p") (port_text p) refl
            (read_text_word (port_text p) k))
        (clean_ports f) h)
]

volume-Agrees : (f : ImageForm) → Agrees (volume_parts f) (volume_argv f)
unfolding read_text read_unit
volume-Agrees f =
    Agrees-map (λ v. Unit {0}) (λ v. txt "-v " ++ shell_quote (volume_text v))
      (λ v. txt "-v" ∷ volume_text v ∷ [])
      (λ v k. quoted-IsPart (txt "-v ") (txt "-v") (volume_text v) refl) (clean_vols f)
      (All_unit (clean_vols f))

env-Agrees : (f : ImageForm) → Agrees (env_parts f) (env_argv f)
unfolding read_text read_unit
env-Agrees f =
    Agrees-map (λ v. Unit {0}) (λ v. txt "-e " ++ shell_quote (variable_text v))
      (λ v. txt "-e" ∷ variable_text v ∷ [])
      (λ v k. quoted-IsPart (txt "-e ") (txt "-e") (variable_text v) refl) (clean_env f)
      (All_unit (clean_env f))

network-Agrees : (f : ImageForm) → Agrees (network_parts f) (network_argv f)
unfolding read_text read_unit
network-Agrees f = elim (Bool-cases (text_eq f.network (txt "bridge"))) [
  | inl y ↦ rw y tt
  | inr off ↦ rw off (quoted-IsPart (txt "--network ") (txt "--network") f.network refl, tt)
]

label-IsPart : IsPart (txt "-l traefik.enable=true") (txt "-l" ∷ txt "traefik.enable=true" ∷ [])
unfolding read_text read_unit
label-IsPart =
    flag-IsPart (txt "-l ") (txt "traefik.enable=true") (txt "-l") (txt "traefik.enable=true") refl
      refl

labels-Agrees :
    (b : Bool) (rule : Text)
    → Agrees
        (if b then txt "-l traefik.enable=true" ∷ (txt "-l " ++ shell_quote rule) ∷ [] else [])
        (if b
          then (txt "-l" ∷ txt "traefik.enable=true" ∷ []) ∷ (txt "-l" ∷ rule ∷ []) ∷ []
          else [])
unfolding read_text read_unit
labels-Agrees true rule = (label-IsPart, (quoted-IsPart (txt "-l ") (txt "-l") rule refl, tt))
labels-Agrees false rule = tt

run-IsPart : IsPart (txt "docker run -d") (txt "docker" ∷ txt "run" ∷ txt "-d" ∷ [])
unfolding read_text read_unit
run-IsPart = record {
  last = txt "-d";
  before = txt "docker" ∷ txt "run" ∷ [];
  is_read = refl;
  words_eq = refl;
}

name-IsPart : (s : Text) → IsPart (txt "--name " ++ shell_quote s) (txt "--name" ∷ s ∷ [])
unfolding read_text read_unit
name-IsPart s = quoted-IsPart (txt "--name ") (txt "--name") s refl

parts-Agrees :
    (to_lower : Text → Text) (f : ImageForm)
    → All IsPlainPort (clean_ports f)
    → Agrees (parts to_lower f) (argv to_lower f)
unfolding parts
parts-Agrees to_lower f h = (
  run-IsPart,
  (
    name-IsPart (cname to_lower f),
    Agrees-append (restart_parts f.restart) _ (restart_argv f.restart) _ (restart-Agrees f.restart)
        (Agrees-append (port_parts f) _ (port_argv f) _ (port-Agrees f h) (
          Agrees-append (volume_parts f) _ (volume_argv f) _ (volume-Agrees f) (
            Agrees-append (env_parts f) _ (env_argv f) _ (env-Agrees f) (
              Agrees-append (network_parts f) _ (network_argv f) _ (network-Agrees f) (
                Agrees-append (traefik_parts to_lower f) _ (traefik_argv to_lower f) _
                  (labels-Agrees f.traefik (rule_text to_lower f))
                  (
                    word-IsPart (shell_quote f.image) f.image (read_text-shell_quote f.image),
                    tt,
                  )))))),
  ),
)

-- The command that the form shows is read by a shell as the arguments that the form describes, if
-- each port shown has only units that need no quotes.
pub shell_words-command :
    (to_lower : Text → Text) (f : ImageForm)
    → All IsPlainPort (clean_ports f)
    → shell_words (command to_lower f) ≡ some (concat (argv to_lower f))
unfolding command parts
shell_words-command to_lower f h =
    IsPart-shell_words (command to_lower f) (concat (argv to_lower f)) (
      join_parts-IsPart (txt "docker run -d") _ _ (options_argv to_lower f)
        (parts-Agrees to_lower f h))
