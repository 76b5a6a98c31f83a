-- ===== src/Ssh/RoundTrip.antt =====
-- `parseDest` reads back what `sshDest` and `sshCommand` print.
use mathlib.Core.List.{append-nil, append_assoc}
use app_dockhand.Base.{
  ℕ, ◌≡◌, refl, ◌≢◌, true, false, not, ◌&&◌, Option, none, some, [], ◌∷◌, ◌++◌, Text, txt, all,
  all-append, arith, show, number, number-show, show-all_digits, show-non_empty, digit_no_space,
  has_no_space, is_space, is_empty, is_digit, trim, trim_start, trim_word, trim_start_word,
  trim_end-append, trim_end_word, trim_end, if◌then◌else◌, ◌==◌, inl, inr, Bool-cases,
  append-cons_ne, trim_start-append, digit_free_of, is_free_of, starts_with, split_last-append,
}
use app_dockhand.Ssh.{ssh_dest, ssh_command}
use app_dockhand.Ssh.Destination.{strip_ssh, parse_user, parse_dest}
use app_dockhand.Ssh.Pieces.{
  IsAddress, strip_ssh_word, find_port_word, find_port-append, parse_host_plain, parse_host_port,
}

-- A login name that `parseDest` can tell from the rest; it may hold an "@".
pub record IsLogin (u : Text) : Type 0 where
  pub non_empty : is_empty u ≡ false
  pub no_space : has_no_space u ≡ true

-- The port that `sshDest` and `sshCommand` show.
abbrev pub shown_port : ℕ → Option ℕ
shown_port port = if not (port == 0) && not (port == 22) then some port else none

at_no_space : is_space b'@' ≡ false
unfolding is_space
at_no_space = refl

colon_no_space : is_space b':' ≡ false
unfolding is_space
colon_no_space = refl

space_is_space : is_space 32 ≡ true
unfolding is_space
space_is_space = refl

s_no_space : is_space b's' ≡ false
unfolding is_space
s_no_space = refl

-- The command without its first word, once trimmed.
strip-command :
    (t : Text) → t ≢ [] → trim_end t ≡ t → trim_start t ≡ t → strip_ssh (trim (txt "ssh " ++ t)) ≡ t
unfolding strip_ssh trim starts_with
strip-command t ne tail front =
    rw
      (
        trim_start_word b's' (txt "sh " ++ t) s_no_space,
        trim_end-append (txt "ssh ") t ne tail,
        space_is_space,
      )
      front

module _ (user address : Text) (l : IsLogin user) (a : IsAddress address) where
  abbrev word : Text
  word = user ++ (b'@' ∷ address)

  word-no_space : has_no_space word ≡ true
  word-no_space =
      ground (arith, all-append (λ c. not (is_space c)) user (b'@' ∷ address), at_no_space)

  parse_user_plain :
      (port : Option ℕ)
      → parse_user word port ≡ record { address = address; port = port; user = some user }
  unfolding parse_user
  parse_user_plain port =
      rw (split_last-append b'@' user address a.no_at, l.non_empty)
        (parse_host_plain address port (some user) a)

  word_ne : word ≢ []
  word_ne = append-cons_ne user b'@' address

  command_plain :
      parse_dest (txt "ssh " ++ word) ≡ record { address = address; port = none; user = some user }
  unfolding parse_dest
  command_plain =
      rw
        (
          strip-command word word_ne (trim_end_word word word-no_space)
              (rw append-nil at (trim_start-append word [] word_ne word-no_space)),
          find_port_word word word-no_space,
        )
        (parse_user_plain none)

  command_tail :
      (c : ℕ) (d : Text)
      → all is_digit (c ∷ d) ≡ true
      → trim_end (word ++ (txt " -p " ++ c ∷ d)) ≡ word ++ (txt " -p " ++ c ∷ d)
  command_tail c d k = rw (append_assoc word (txt " -p ") (c ∷ d)) at (
      trim_end-append (word ++ txt " -p ") (c ∷ d) (λ e. cc)
        (trim_end_word (c ∷ d) (digit_no_space (c ∷ d) k)))

  command_port :
      (c : ℕ) (d : Text)
      → all is_digit (c ∷ d) ≡ true
      → parse_dest (txt "ssh " ++ (word ++ (txt " -p " ++ c ∷ d)))
        ≡ record { address = address; port = some (number (c ∷ d)); user = some user }
  unfolding parse_dest
  command_port c d k =
      rw
        (
          strip-command (word ++ (txt " -p " ++ c ∷ d))
              (append-cons_ne word 32 (txt "-p " ++ c ∷ d)) (command_tail c d k)
              (trim_start-append word (txt " -p " ++ c ∷ d) word_ne word-no_space),
          find_port-append word c d word-no_space k,
          append-nil,
          trim_word word word-no_space,
        )
        (parse_user_plain (some (number (c ∷ d))))

  command_digits :
      (digits : Text)
      → is_empty digits ≡ false
      → all is_digit digits ≡ true
      → parse_dest (txt "ssh " ++ (word ++ (txt " -p " ++ digits)))
        ≡ record { address = address; port = some (number digits); user = some user }
  command_digits [] ne k = cc
  command_digits (c ∷ d) ne k = command_port c d k

  dest_no_space :
      (c : ℕ) (d : Text)
      → all is_digit (c ∷ d) ≡ true
      → has_no_space (user ++ (b'@' ∷ (address ++ b':' ∷ c ∷ d))) ≡ true
  dest_no_space c d k = ground (
    arith,
    all-append (λ x. not (is_space x)) user (b'@' ∷ (address ++ b':' ∷ c ∷ d)),
    all-append (λ x. not (is_space x)) address (b':' ∷ c ∷ d),
    digit_no_space (c ∷ d) k,
    at_no_space,
    colon_no_space,
  )

  dest_free :
      (c : ℕ) (d : Text)
      → all is_digit (c ∷ d) ≡ true
      → is_free_of b'@' (address ++ b':' ∷ c ∷ d) ≡ true
  dest_free c d k = ground (
    arith,
    all-append (λ x. not (x == b'@')) address (b':' ∷ c ∷ d),
    digit_free_of b'@' (c ∷ d) refl k,
  )

  dest_digits :
      (digits : Text)
      → is_empty digits ≡ false
      → all is_digit digits ≡ true
      → parse_dest (user ++ (b'@' ∷ (address ++ b':' ∷ digits)))
        ≡ record { address = address; port = some (number digits); user = some user }
  unfolding parse_dest parse_user
  dest_digits [] ne k = cc
  dest_digits (c ∷ d) ne k =
      let clean : has_no_space (user ++ (b'@' ∷ (address ++ b':' ∷ c ∷ d))) ≡ true =
        dest_no_space c d k in
      rw
        (
          trim_word (user ++ (b'@' ∷ (address ++ b':' ∷ c ∷ d))) clean,
          strip_ssh_word (user ++ (b'@' ∷ (address ++ b':' ∷ c ∷ d))) clean,
          find_port_word (user ++ (b'@' ∷ (address ++ b':' ∷ c ∷ d))) clean,
          split_last-append b'@' user (address ++ b':' ∷ c ∷ d) (dest_free c d k),
          l.non_empty,
        )
        (parse_host_port address c d none (some user) a k)

  read_back :
      (t : Text) (port : ℕ)
      → parse_dest t
        ≡ record { address = address; port = some (number (show port)); user = some user }
      → parse_dest t ≡ record { address = address; port = some port; user = some user }
  read_back t port h = rw (number-show port) at h

  -- What `sshCommand` prints for a login and an address is read back as that login, that address
  -- and the port, unless it is 0 or 22, which are not printed.
  pub parse_dest-ssh_command :
      (port : ℕ)
      → parse_dest (ssh_command address port user)
        ≡ record { address = address; port = shown_port port; user = some user }
  unfolding ssh_command
  parse_dest-ssh_command port = elim (Bool-cases (not (port == 0) && not (port == 22))) [
    | inl shows ↦
        rw (shows, ← append_assoc user (b'@' ∷ address) (txt " -p " ++ show port))
          (read_back _ port
            (command_digits (show port) (show-non_empty port) (show-all_digits port)))
    | inr hides ↦ rw (hides, append-nil) command_plain
  ]

  dest_plain : parse_dest word ≡ record { address = address; port = none; user = some user }
  unfolding parse_dest
  dest_plain =
      rw
        (
          trim_word word word-no_space,
          strip_ssh_word word word-no_space,
          find_port_word word word-no_space,
        )
        (parse_user_plain none)

  -- What `sshDest` prints for a login and an address is read back in the same way.
  parse_dest-ssh_dest :
      (port : ℕ)
      → parse_dest (ssh_dest address port user)
        ≡ record { address = address; port = shown_port port; user = some user }
  unfolding ssh_dest
  parse_dest-ssh_dest port = elim (Bool-cases (not (port == 0) && not (port == 22))) [
    | inl shows ↦
        rw shows
          (read_back _ port (dest_digits (show port) (show-non_empty port) (show-all_digits port)))
    | inr hides ↦ rw (hides, append-nil) dest_plain
  ]
