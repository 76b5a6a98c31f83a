-- ===== src/Ssh/Tests.antt =====
-- Destinations and stores to try, and the theorems applied to them.
use app_dockhand.Base.{
  ◌≡◌, refl, true, none, some, List, [], ◌∷◌, Text, txt, starts_with, trim, trim_start, span, arith,
  number, is_space, show, split_last,
}
use app_dockhand.Ssh.{
  SshAuth, CustomSshConn, Storage, absent, read, ssh_command, known_key, as_recent, recent_ssh,
}
use app_dockhand.Ssh.Recent.{IsTidy, remember, forget, Use}
use app_dockhand.Ssh.Destination.{
  parse_dest, strip_ssh, find_port, port_here, parse_user, parse_host, bracketed, drop_bracket,
}
use app_dockhand.Ssh.Pieces.{IsAddress}
use app_dockhand.Ssh.RoundTrip.{IsLogin, parse_dest-ssh_command}

bracketed_address :
    parse_dest (txt "root@[fe80::1]:2222")
    ≡ record { address = txt "fe80::1"; port = some 2222; user = some (txt "root") }
unfolding parse_dest strip_ssh find_port port_here trim_start parse_user split_last parse_host
    bracketed drop_bracket starts_with trim span number is_space
bracketed_address = refl

abbrev conn : CustomSshConn
conn = record {
  address = txt "10.0.0.4";
  port = 2222;
  user = txt "root";
  auth = SshAuth.key;
  password = none;
  private_key = none;
  passphrase = none;
}

abbrev browser : Storage
browser = record { available = true; recent = absent; known = absent }

abbrev uses : List Use
uses = remember conn ∷ remember conn ∷ forget (as_recent conn) ∷ remember conn ∷ []

starts-IsTidy : IsTidy (recent_ssh browser)
unfolding recent_ssh read
starts-IsTidy = record { short = omega arith; distinct = tt }

abbrev same : Text → Text
same s = s

same_key : known_key same (txt "h") 0 ≡ known_key same (txt "h") 22
unfolding known_key show
same_key = refl

root-IsLogin : IsLogin (txt "root")
unfolding is_space
root-IsLogin = record { non_empty = refl; no_space = refl }

ten-IsAddress : IsAddress (txt "10.0.0.4")
unfolding is_space
ten-IsAddress = record {
  non_empty = refl;
  no_space = refl;
  no_at = refl;
  no_colon = refl;
  no_opening = refl;
  no_closing = refl;
}

parse_dest-ssh_command_example :
    parse_dest (ssh_command (txt "10.0.0.4") 2222 (txt "root"))
    ≡ record { address = txt "10.0.0.4"; port = some 2222; user = some (txt "root") }
parse_dest-ssh_command_example =
    parse_dest-ssh_command (txt "root") (txt "10.0.0.4") root-IsLogin ten-IsAddress 2222
