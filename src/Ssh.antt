-- ===== src/Ssh.antt =====
-- web/lib/customSsh.ts: logins to addresses that are not Dockhand hosts. The browser's storage is a
-- record of its two entries; what JSON writes it reads back. `toLowerCase` is a parameter.
pub mod Recent
pub mod Known
pub mod Destination
pub mod RoundTrip
pub mod Pieces
mod Tests
use app_dockhand.Base.{
  ℕ, ◌≡◌, refl, Bool, true, false, not, ◌&&◌, ◌||◌, Option, none, some, List, [], ◌∷◌, ◌++◌, Text,
  txt, text_eq, filter, take, show, ◌==◌, if◌then◌else◌,
}

pub data SshAuth : Type 0 where
  key password private_key : SshAuth

pub record CustomSshConn : Type 0 where
  pub address : Text
  pub port : ℕ
  pub user : Text
  pub auth : SshAuth
  pub password : Option Text
  pub private_key : Option Text
  pub passphrase : Option Text

pub record SshRecent : Type 0 where
  pub address : Text
  pub port : ℕ
  pub user : Text
  pub auth : SshAuth

-- An entry of the storage: absent or empty, not JSON, or the value that it parses to.
pub data Entry (A : Type 0) : Type 0 where
  absent : Entry A
  garbled : Entry A
  holds : A → Entry A

-- `localStorage`, which throws when it is not available.
pub record Storage : Type 0 where
  pub available : Bool
  pub recent : Entry (List SshRecent)
  pub known : Entry (List (Text × Text))

unfoldable pub read : {A : Type 0} → Bool → Entry A → A → A
read true (holds v) fallback = v
read _ _ fallback = fallback

unfoldable pub write : {A : Type 0} → Bool → Entry A → A → Entry A
write true entry v = holds v
write false entry v = entry

-- What is read after a write: what was written, or without storage what was read before.
pub read-write :
    {A : Type 0} (up : Bool) (entry : Entry A) (v fallback : A)
    → read up (write up entry v) fallback ≡ (if up then v else read up entry fallback)
unfolding read write
read-write true entry v fallback = refl
read-write false absent v fallback = refl
read-write false garbled v fallback = refl
read-write false (holds w) v fallback = refl

-- `c.port && c.port !== 22 ? prefix + c.port : ""`
abbrev pub port_suffix : Text → ℕ → Text
port_suffix prefix port = if not (port == 0) && not (port == 22) then prefix ++ show port else []

unfoldable pub ssh_dest : Text → ℕ → Text → Text
ssh_dest address port user = user ++ (b'@' ∷ (address ++ port_suffix (txt ":") port))

unfoldable pub ssh_command : Text → ℕ → Text → Text
ssh_command address port user =
    txt "ssh " ++ (user ++ (b'@' ∷ (address ++ port_suffix (txt " -p ") port)))

-- `c.port || 22`
abbrev pub effective_port : ℕ → ℕ
effective_port port = if port == 0 then 22 else port

unfoldable pub known_key : (Text → Text) → Text → ℕ → Text
known_key to_lower address port = to_lower address ++ b':' ∷ show (effective_port port)

unfoldable pub recent_ssh : Storage → List SshRecent
recent_ssh s = read s.available s.recent []

-- `sshDest(x)` of a recent connection
abbrev pub dest : SshRecent → Text
dest r = ssh_dest r.address r.port r.user

abbrev pub other_dest : SshRecent → SshRecent → Bool
other_dest r x = not (text_eq (dest x) (dest r))

abbrev pub as_recent : CustomSshConn → SshRecent
as_recent c = record { address = c.address; port = c.port; user = c.user; auth = c.auth }

unfoldable pub remember_ssh : CustomSshConn → Storage → Storage
remember_ssh c s =
    let r = as_recent c in
    record s {
      recent = write s.available s.recent (take 8 (r ∷ filter (other_dest r) (recent_ssh s)));
    }

unfoldable pub forget_recent_ssh : SshRecent → Storage → Storage
forget_recent_ssh r s = record s {
  recent = write s.available s.recent (filter (other_dest r) (recent_ssh s));
}

-- `all[k]`
unfoldable pub get : Text → List (Text × Text) → Option Text
get k [] = none
get k ((j, v) ∷ m) = if text_eq j k then some v else get k m

-- `all[k] = v`
unfoldable pub put : Text → Text → List (Text × Text) → List (Text × Text)
put k v [] = (k, v) ∷ []
put k v ((j, w) ∷ m) = if text_eq j k then (j, v) ∷ m else (j, w) ∷ put k v m

-- `delete all[k]`
unfoldable pub delete : Text → List (Text × Text) → List (Text × Text)
delete k [] = []
delete k ((j, v) ∷ m) = if text_eq j k then delete k m else (j, v) ∷ delete k m

module _ (to_lower : Text → Text) where
  unfoldable pub known_host_key : Text → ℕ → Storage → Text
  known_host_key address port s =
      elim (get (known_key to_lower address port) (read s.available s.known [])) [
        | none ↦ []
        | some f ↦ f
      ]

  unfoldable pub save_host_key : Text → ℕ → Text → Storage → Storage
  save_host_key address port fingerprint s = record s {
    known =
        write s.available s.known
          (put (known_key to_lower address port) fingerprint (read s.available s.known []));
  }

  unfoldable pub forget_host_key : Text → ℕ → Storage → Storage
  forget_host_key address port s = record s {
    known =
        write s.available s.known
          (delete (known_key to_lower address port) (read s.available s.known []));
  }
