-- ===== src/Image/Tests.antt =====
-- A form to try the functions on, and the theorems applied to it.
use app_dockhand.Base.{
  some, refl, txt, Text, [], ◌∷◌, ◌≡◌, ◌++◌, false, text_eq, trim, split_first, trim_start,
  trim_end, split_last, is_space, All,
}
use app_dockhand.Types.Containers.{RunContainerInputRestart}
use app_dockhand.Image.Command.{
  ImageForm, command, clean_ports, parts, join_parts, cname, rule_text, line_break,
}
use app_dockhand.Image.Argv.{argv, shell_words-command, IsPlainPort}
use app_dockhand.Image.Parts.{concat}
use app_dockhand.Image.Quote.{shell_words, shell_quote, escape}
use app_dockhand.Image.{
  with_tag, repo_of, split_registry, default_name, has_tag, last_part, before_digest,
}

abbrev same : Text → Text
same s = s

abbrev form : ImageForm
form = record {
  image = txt "ghcr.io/org/app:1";
  name = txt "my app";
  restart = RunContainerInputRestart.unless_stopped;
  host = some (txt "h1");
  ports = record { a = txt "8080"; b = txt "80" } ∷ [];
  vols = [];
  env = record { a = txt "GREETING"; b = txt "it's" } ∷ [];
  network = txt "bridge";
  traefik = false;
  domain = [];
}

shown_command :
    command same form
    ≡ txt "docker run -d"
      ++ line_break
      ++ txt "--name 'my app'"
      ++ line_break
      ++ txt "--restart unless-stopped"
      ++ line_break
      ++ txt "-p 8080:80"
      ++ line_break
      ++ txt "-e 'GREETING=it'\\''s'"
      ++ line_break
      ++ txt "ghcr.io/org/app:1"
unfolding command parts join_parts cname default_name last_part repo_of before_digest split_last
    split_first shell_quote escape trim trim_start trim_end is_space text_eq rule_text
shown_command = refl

plain : All IsPlainPort (clean_ports form)
unfolding trim trim_start trim_end is_space
plain = (refl, tt)

shell_words-command_example : shell_words (command same form) ≡ some (concat (argv same form))
shell_words-command_example = shell_words-command same form plain

with_tag_test : with_tag (txt " redis ") ≡ txt "redis:latest"
unfolding with_tag has_tag last_part split_last trim trim_start trim_end is_space
with_tag_test = refl

split_registry_test : split_registry (txt "localhost:5000/app") ≡ (txt "localhost:5000", txt "app")
unfolding split_registry split_first text_eq
split_registry_test = refl
