-- ===== src/Mcp/Port.antt =====
-- What the field of the port saves.
use app_dockhand.Base.{
  refl, ℕ, ◌≡◌, some, ◌⊎◌, ◌≤◌, ◌≢◌, if◌then◌else◌, ◌==◌, [], show, Text, Option, Bool, false,
  Bool-cases, not, trim, is_empty, inl, ◌∷◌, inr, ◌&&◌, all, arith, is_digit, leb,
}
use app_dockhand.Mcp.{
  port_step, commit, port_value, PortEvent, PortField, typed, commit_draft, blurred, escaped,
  finished, port_of,
}
use mathlib.Core.Option.{none}
use mathlib.Core.Path.{subst}

-- What is asked of a saved port.
abbrev pub IsSaved : ℕ → PortField → ℕ → Type 0
IsSaved port f n =
    ((n ≡ 0) ⊎ ((1024 ≤ n) × (n ≤ 65535)))
    × (n ≢ port)
    × (f.err ≡ [])
    × ((p : ℕ) → port_value p (port_step n finished f).0 ≡ (if p == 0 then [] else show p))

abbrev InRange : ℕ → Type 0
InRange n = (n ≡ 0) ⊎ ((1024 ≤ n) × (n ≤ 65535))

-- What `commit` refuses.
abbrev is_bad : Text → Bool
is_bad t = not (is_empty t) && not (all is_digit t && leb 1024 (port_of t) && leb (port_of t) 65535)

in_range : (t : Text) → is_bad t ≡ false → InRange (port_of t)
in_range [] h = inl refl
in_range (c ∷ t) h = inr (ground arith)

commit-IsSaved :
    (port : ℕ) (d : Text) (f : PortField) (n : ℕ)
    → (commit port d f).1 ≡ some n
    → IsSaved port (commit port d f).0 n
unfolding commit port_value port_step
commit-IsSaved port d f n h = elim (Bool-cases (is_bad (trim d))) [
  | inl y ↦ let no : none ≡ some n = rw y at h in absurd (cc)
  | inr y ↦ elim (Bool-cases (port_of (trim d) == port)) [
    | inl z ↦ let no : none ≡ some n = rw (y, z) at h in absurd (cc)
    | inr z ↦
        let e : some (port_of (trim d)) ≡ some n = rw (y, z) at h in
        let q : port_of (trim d) ≡ n = cc in
        rw (y, z) (subst InRange q (in_range (trim d) y), λ k. ground arith, refl, λ p. refl)
  ]
]

commit_draft-IsSaved :
    (port : ℕ) (o : Option Text) (f : PortField) (n : ℕ)
    → (commit_draft port o f).1 ≡ some n
    → IsSaved port (commit_draft port o f).0 n
commit_draft-IsSaved port none f n h = absurd (cc)
commit_draft-IsSaved port (some d) f n h = commit-IsSaved port d f n h

-- The port that is saved is 0, for no port of its own, or lies between 1024 and 65535, and is not the one
-- from before; no error is shown with it, and when the save has ended, the field shows the port alone that
-- is set then, whatever it is.
pub port_step-IsSaved :
    (port : ℕ) (e : PortEvent) (f : PortField) (n : ℕ)
    → (port_step port e f).1 ≡ some n
    → IsSaved port (port_step port e f).0 n
unfolding port_step
port_step-IsSaved port (typed s) f n h = absurd (cc)
port_step-IsSaved port blurred f n h = commit_draft-IsSaved port f.draft f n h
port_step-IsSaved port escaped f n h = absurd (cc)
port_step-IsSaved port finished f n h = absurd (cc)
