-- ===== src/SshConfig/Tests.antt =====
-- A configuration to read, and the theorems applied to it.
use app_dockhand.Base.{
  refl, Text, txt, All, ◌≡◌, [], span, trim, trim_start, trim_end, is_space, text_eq, number,
  number_from, ◌∷◌, split_lines,
}
use app_dockhand.SshConfig.{
  entries, take_line, set_option, flushed, first_wins, words_from, parse_int, pos,
}
use app_dockhand.SshConfig.Lines.{
  parse_ssh_config, key_values, key_value, split_line, content, unquote,
}
use app_dockhand.SshConfig.Unique.{IsUnique, IsConcrete, parse_ssh_config-IsUnique}

abbrev same : Text → Text
same s = s

abbrev sample : Text
sample = txt "host web *.lan\nport 2222\n# more\nuser=ops\nhost db web\nhostname \"10.0.0.9\"\n"

read_sample :
    parse_ssh_config same sample
    ≡ record { name = txt "web"; address = txt "web"; port = pos 2222; user = txt "ops" }
      ∷ record { name = txt "db"; address = txt "10.0.0.9"; port = pos 22; user = txt "root" }
      ∷ []
unfolding parse_ssh_config split_lines key_values key_value split_line content unquote entries
    take_line set_option flushed first_wins words_from parse_int span trim trim_start trim_end
    is_space text_eq number number_from
read_sample = refl

parse_ssh_config-IsUnique_example :
    IsUnique (parse_ssh_config same sample) × All IsConcrete (parse_ssh_config same sample)
parse_ssh_config-IsUnique_example = parse_ssh_config-IsUnique same sample
