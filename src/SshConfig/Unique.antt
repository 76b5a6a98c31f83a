-- ===== src/SshConfig/Unique.antt =====
-- The hosts that are imported from an SSH configuration.
use app_dockhand.Base.{
  refl, List, Option, ◌∷◌, ◌≡◌, Text, All, text_eq, false, is_empty, ◌≢◌, not, some, arith,
  All-append, any, suc, true, All-filter_self, txt, map, Bool-cases, find, text_eq_iff, inl, inr,
  All-map, split_lines,
}
use app_dockhand.Base.Int.{ℤ, pos, negsuc}
use app_dockhand.SshConfig.{
  SshConfigEntry, is_pattern, Block, flushed, take_line, entries, first_wins, port_or, text_or,
  entry_of,
}
use mathlib.Core.List.{[], []}
use mathlib.Core.Option.{none, none, none}
use Prim.Native.Nat.{zero}
use app_dockhand.SshConfig.Lines.{parse_ssh_config, key_values}

abbrev pub IsUnique : List SshConfigEntry → Type 0
IsUnique [] = Unit
IsUnique (e ∷ es) = All (λ (f : SshConfigEntry). text_eq f.name e.name ≡ false) es × IsUnique es

-- The entry names one host: its name is no pattern, and its address, port and user are set.
pub record IsConcrete (e : SshConfigEntry) : Type 0 where
  pub name : is_pattern e.name ≡ false
  pub port : e.port ≢ pos 0
  pub user : is_empty e.user ≡ false

text_or_non_empty :
    (o : Option Text) (d : Text) → is_empty d ≡ false → is_empty (text_or o d) ≡ false
text_or_non_empty none d h = h
text_or_non_empty (some s) d h = ground arith

port_or_non_zero : (o : Option ℤ) → port_or o (pos 22) ≢ pos 0
port_or_non_zero none h = ground arith
port_or_non_zero (some (pos zero)) h = ground arith
port_or_non_zero (some (pos (suc n))) h = ground arith
port_or_non_zero (some (negsuc n)) h = ground arith

entry_of-IsConcrete : (cur : Block) (n : Text) → is_pattern n ≡ false → IsConcrete (entry_of cur n)
entry_of-IsConcrete cur n h = record {
  name = h;
  port = port_or_non_zero cur.port;
  user = text_or_non_empty cur.user (txt "root") refl;
}

mapped-IsConcrete :
    (cur : Block) (ns : List Text)
    → All (λ n. not (is_pattern n) ≡ true) ns
    → All IsConcrete (map (entry_of cur) ns)
mapped-IsConcrete cur [] h = tt
mapped-IsConcrete cur (n ∷ ns) (p, h) =
    (entry_of-IsConcrete cur n (ground arith), mapped-IsConcrete cur ns h)

flushed-IsConcrete : (cur : Option Block) → All IsConcrete (flushed cur)
unfolding flushed
flushed-IsConcrete none = tt
flushed-IsConcrete (some cur) =
    mapped-IsConcrete cur _ (All-filter_self (λ n. not (is_pattern n)) cur.names)

take_line-IsConcrete :
    (key val : Text) (cur : Option Block) → All IsConcrete (take_line key val cur).0
unfolding take_line
take_line-IsConcrete key val cur = ground (arith, flushed-IsConcrete cur)

entries-IsConcrete :
    (lines : List (Text × Text)) (cur : Option Block) → All IsConcrete (entries lines cur)
unfolding entries
entries-IsConcrete [] cur = flushed-IsConcrete cur
entries-IsConcrete ((key, val) ∷ lines) cur =
    All-append IsConcrete _ _ (take_line-IsConcrete key val cur) (entries-IsConcrete lines _)

first_wins-All :
    (P : SshConfigEntry → Type 0) (seen : List Text) (es : List SshConfigEntry)
    → All P es
    → All P (first_wins seen es)
unfolding first_wins
first_wins-All P seen [] h = tt
first_wins-All P seen (e ∷ es) (p, h) =
    ground (arith, first_wins-All P seen es h, first_wins-All P (e.name ∷ seen) es h)

abbrev Avoids : List Text → SshConfigEntry → Type 0
Avoids seen e = any (text_eq e.name) seen ≡ false

first_wins-Avoids :
    (seen : List Text) (es : List SshConfigEntry) → All (Avoids seen) (first_wins seen es)
unfolding first_wins
first_wins-Avoids seen [] = tt
first_wins-Avoids seen (e ∷ es) = elim (Bool-cases (any (text_eq e.name) seen)) [
  | inl y ↦ rw y (first_wins-Avoids seen es)
  | inr off ↦ rw off (
    off,
    All-map (Avoids (e.name ∷ seen)) (Avoids seen) (λ f h. ground arith) _
        (first_wins-Avoids (e.name ∷ seen) es),
  )
]

first_wins-IsUnique : (seen : List Text) (es : List SshConfigEntry) → IsUnique (first_wins seen es)
unfolding first_wins
first_wins-IsUnique seen [] = tt
first_wins-IsUnique seen (e ∷ es) = elim (Bool-cases (any (text_eq e.name) seen)) [
  | inl y ↦ rw y (first_wins-IsUnique seen es)
  | inr off ↦ rw off (
    All-map (Avoids (e.name ∷ seen)) _ (λ f h. ground arith) _
        (first_wins-Avoids (e.name ∷ seen) es),
    first_wins-IsUnique (e.name ∷ seen) es,
  )
]

-- The first entry of a name.
abbrev pub entry_named : Text → List SshConfigEntry → Option SshConfigEntry
entry_named n es = find (λ (e : SshConfigEntry). text_eq e.name n) es

entry_named-first_wins_from :
    (n : Text) (seen : List Text) (es : List SshConfigEntry)
    → any (text_eq n) seen ≡ false
    → entry_named n (first_wins seen es) ≡ entry_named n es
unfolding first_wins
entry_named-first_wins_from n seen [] h = refl
entry_named-first_wins_from n seen (e ∷ es) h = ground (
  arith,
  entry_named-first_wins_from n seen es h,
  entry_named-first_wins_from n (e.name ∷ seen) es,
  text_eq_iff e.name n,
  text_eq_iff n e.name,
)

module _ (to_lower : Text → Text) where
  -- Whatever the file holds: no two of the imported hosts have the same name, none has a pattern for
  -- its name, and each has a port other than 0 and a user.
  pub parse_ssh_config-IsUnique :
      (text : Text)
      → IsUnique (parse_ssh_config to_lower text) × All IsConcrete (parse_ssh_config to_lower text)
  unfolding parse_ssh_config
  parse_ssh_config-IsUnique text = (
    first_wins-IsUnique [] _,
    first_wins-All IsConcrete [] _
        (entries-IsConcrete (key_values to_lower (split_lines [] text)) none),
  )

  -- The host that is imported for a name is the first one that the file gives for it; a name of the
  -- file is not lost.
  pub entry_named-parse_ssh_config :
      (n text : Text)
      → entry_named n (parse_ssh_config to_lower text)
        ≡ entry_named n (entries (key_values to_lower (split_lines [] text)) none)
  unfolding parse_ssh_config
  entry_named-parse_ssh_config n text = entry_named-first_wins_from n [] _ refl
