-- ===== src/Ssh/Pieces.antt =====
-- How the regular expressions of `parseDest` act on the texts that `sshDest` and `sshCommand` make.
use app_dockhand.Base.{
  ℕ, ◌≡◌, refl, true, false, none, some, [], ◌∷◌, ◌++◌, Text, txt, all, span-all, is_space,
  is_digit, is_empty, trim_start, trim_start_word, arith, has_no_space, is_free_of, starts_with,
  ◌==◌, digit-is_space, Option, number, split_first_free, split_first-append,
}
use app_dockhand.Ssh.Destination.{
  strip_ssh, port_here, find_port, drop_bracket, bracketed, plain, strip_brackets, parse_host,
}

pub strip_ssh_word : (s : Text) → has_no_space s ≡ true → strip_ssh s ≡ s
unfolding strip_ssh
strip_ssh_word [] h = unfold starts_with in refl
strip_ssh_word (a ∷ []) h = ground arith
strip_ssh_word (a ∷ b ∷ []) h = ground arith
strip_ssh_word (a ∷ b ∷ c ∷ []) h = ground arith
strip_ssh_word (a ∷ b ∷ c ∷ d ∷ s) h = ground arith

pub find_port_word : (s : Text) → has_no_space s ≡ true → find_port s ≡ none
unfolding find_port
find_port_word [] h = refl
find_port_word (c ∷ s) h = ground (arith, find_port_word s)

port_here_digits :
    (c : ℕ) (d : Text)
    → all is_digit (c ∷ d) ≡ true
    → port_here (txt "-p " ++ c ∷ d) ≡ some (c ∷ d, [])
unfolding port_here starts_with trim_start is_space
port_here_digits c d h =
    rw (trim_start_word c d (digit-is_space c (ground arith)), span-all is_digit (c ∷ d) h)

pub find_port-append :
    (w : Text) (c : ℕ) (d : Text)
    → has_no_space w ≡ true
    → all is_digit (c ∷ d) ≡ true
    → find_port (w ++ (txt " -p " ++ c ∷ d)) ≡ some (w, c ∷ d, [])
unfolding find_port
find_port-append [] c d h k = rw (find_port, port_here_digits c d k) (unfold is_space in refl)
find_port-append (x ∷ w) c d h k = ground (arith, find_port-append w c d)

drop_bracket_free : (s : Text) → is_free_of b']' s ≡ true → drop_bracket s ≡ none
unfolding drop_bracket
drop_bracket_free [] h = refl
drop_bracket_free (c ∷ []) h = ground arith
drop_bracket_free (c ∷ d ∷ s) h = ground (arith, drop_bracket_free (d ∷ s))

bracketed_free : (c : ℕ) (s : Text) → (c == b'[') ≡ false → bracketed (c ∷ s) ≡ none
unfolding bracketed
bracketed_free c s h = ground arith

plain_free : (s : Text) → is_free_of b':' s ≡ true → plain s ≡ none
unfolding plain
plain_free s h = rw (split_first_free b':' s h)

plain-append :
    (x : ℕ) (s : Text) (c : ℕ) (d : Text)
    → is_free_of b':' (x ∷ s) ≡ true
    → all is_digit (c ∷ d) ≡ true
    → plain ((x ∷ s) ++ b':' ∷ c ∷ d) ≡ some (x ∷ s, c ∷ d)
unfolding plain
plain-append x s c d h k = rw (split_first-append b':' (x ∷ s) (c ∷ d) h, k)

strip_brackets_free :
    (s : Text) → is_free_of b'[' s ≡ true → is_free_of b']' s ≡ true → strip_brackets s ≡ s
unfolding strip_brackets
strip_brackets_free [] h k = unfold drop_bracket in refl
strip_brackets_free (c ∷ s) h k = ground (arith, drop_bracket_free (c ∷ s) k)

-- An address that `parseDest` can tell from the rest: not empty, no white space, "@", colon or bracket.
pub record IsAddress (a : Text) : Type 0 where
  pub non_empty : is_empty a ≡ false
  pub no_space : has_no_space a ≡ true
  pub no_at : is_free_of b'@' a ≡ true
  pub no_colon : is_free_of b':' a ≡ true
  pub no_opening : is_free_of b'[' a ≡ true
  pub no_closing : is_free_of b']' a ≡ true

pub parse_host_plain :
    (a : Text) (port : Option ℕ) (user : Option Text)
    → IsAddress a
    → parse_host a port user ≡ record { address = a; port = port; user = user }
unfolding parse_host
parse_host_plain [] port user h = cc
parse_host_plain (c ∷ s) port user h = rw (
  bracketed_free c s (ground arith),
  plain_free (c ∷ s) h.no_colon,
  strip_brackets_free (c ∷ s) h.no_opening h.no_closing,
)

pub parse_host_port :
    (a : Text) (c : ℕ) (d : Text) (port : Option ℕ) (user : Option Text)
    → IsAddress a
    → all is_digit (c ∷ d) ≡ true
    → parse_host (a ++ b':' ∷ c ∷ d) port user
      ≡ record { address = a; port = some (number (c ∷ d)); user = user }
unfolding parse_host
parse_host_port [] c d port user h k = cc
parse_host_port (x ∷ s) c d port user h k =
    rw (bracketed_free x (s ++ b':' ∷ c ∷ d) (ground arith), plain-append x s c d h.no_colon k)
