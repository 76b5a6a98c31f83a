-- ===== src/Ssh/Recent.antt =====
-- The list of recent connections.
use app_dockhand.Base.{
  ℕ, ◌≡◌, ◌≤◌, Bool, true, false, List, [], ◌∷◌, filter, take, length, arith, All, All-take,
  All-filter, All-filter_self, length-take, length-filter-le, if◌then◌else◌,
}
use app_dockhand.Ssh.{
  CustomSshConn, SshRecent, Storage, other_dest, as_recent, recent_ssh, remember_ssh,
  forget_recent_ssh, read-write,
}

-- No two entries show the same destination.
abbrev pub IsDistinct : List SshRecent → Type 0
IsDistinct [] = Unit
IsDistinct (r ∷ rs) = All (λ x. other_dest r x ≡ true) rs × IsDistinct rs

pub record IsTidy (rs : List SshRecent) : Type 0 where
  pub short : length rs ≤ 8
  pub distinct : IsDistinct rs

IsDistinct-filter :
    (p : SshRecent → Bool) (rs : List SshRecent) → IsDistinct rs → IsDistinct (filter p rs)
IsDistinct-filter p [] h = tt
IsDistinct-filter p (r ∷ rs) (fresh, h) =
    ground (arith, All-filter (λ x. other_dest r x ≡ true) p rs fresh, IsDistinct-filter p rs h)

IsDistinct-take : (n : ℕ) (rs : List SshRecent) → IsDistinct rs → IsDistinct (take n rs)
IsDistinct-take ℕ.zero rs h = tt
IsDistinct-take (ℕ.suc n) [] h = tt
IsDistinct-take (ℕ.suc n) (r ∷ rs) (fresh, h) =
    (All-take (λ x. other_dest r x ≡ true) n rs fresh, IsDistinct-take n rs h)

-- What the list becomes, with and without storage.
recent-remember :
    (c : CustomSshConn) (s : Storage)
    → recent_ssh (remember_ssh c s) ≡ (
        if s.available
        then take 8 (as_recent c ∷ filter (other_dest (as_recent c)) (recent_ssh s))
        else recent_ssh s)
unfolding remember_ssh recent_ssh
recent-remember c s = read-write s.available s.recent _ []

recent-forget :
    (r : SshRecent) (s : Storage)
    → recent_ssh (forget_recent_ssh r s)
      ≡ (if s.available then filter (other_dest r) (recent_ssh s) else recent_ssh s)
unfolding forget_recent_ssh recent_ssh
recent-forget r s = read-write s.available s.recent _ []

remembered-IsTidy :
    (r : SshRecent) (rs : List SshRecent)
    → IsTidy rs
    → IsTidy (take 8 (r ∷ filter (other_dest r) rs))
remembered-IsTidy r rs h = record {
  short = omega (arith, length-take 8 (r ∷ filter (other_dest r) rs));
  distinct =
      IsDistinct-take 8 (r ∷ filter (other_dest r) rs)
        (All-filter_self (other_dest r) rs, IsDistinct-filter (other_dest r) rs h.distinct);
}

forgotten-IsTidy :
    (r : SshRecent) (rs : List SshRecent) → IsTidy rs → IsTidy (filter (other_dest r) rs)
forgotten-IsTidy r rs h = record {
  short = omega (arith, length-filter-le (other_dest r) rs);
  distinct = IsDistinct-filter (other_dest r) rs h.distinct;
}

-- What a user does to the list.
pub data Use : Type 0 where
  remember : CustomSshConn → Use
  forget : SshRecent → Use

unfoldable pub apply : Use → Storage → Storage
apply (remember c) s = remember_ssh c s
apply (forget r) s = forget_recent_ssh r s

unfoldable pub apply_all : List Use → Storage → Storage
unfolding apply
apply_all [] s = s
apply_all (u ∷ us) s = apply_all us (apply u s)

if-IsTidy :
    (b : Bool) (xs ys : List SshRecent) → IsTidy xs → IsTidy ys → IsTidy (if b then xs else ys)
if-IsTidy true xs ys h k = h
if-IsTidy false xs ys h k = k

apply-IsTidy : (u : Use) (s : Storage) → IsTidy (recent_ssh s) → IsTidy (recent_ssh (apply u s))
unfolding apply
apply-IsTidy (remember c) s h =
    rw (recent-remember c s)
      (if-IsTidy s.available _ _ (remembered-IsTidy (as_recent c) (recent_ssh s) h) h)
apply-IsTidy (forget r) s h =
    rw (recent-forget r s) (if-IsTidy s.available _ _ (forgotten-IsTidy r (recent_ssh s) h) h)

-- However connections are remembered and forgotten, a list of at most eight entries in which no two
-- show the same destination stays such a list; the empty one is, with which a browser starts.
pub apply_all-IsTidy :
    (us : List Use) (s : Storage) → IsTidy (recent_ssh s) → IsTidy (recent_ssh (apply_all us s))
unfolding apply_all
apply_all-IsTidy [] s h = h
apply_all-IsTidy (u ∷ us) s h = apply_all-IsTidy us (apply u s) (apply-IsTidy u s h)

-- With storage available, the connection that was remembered last is the first of the list, and no
-- other entry shows its destination.
recent-remember_first :
    (c : CustomSshConn) (s : Storage)
    → s.available ≡ true
    → (rest : List SshRecent) × (recent_ssh (remember_ssh c s) ≡ as_recent c ∷ rest)
      × All (λ x. other_dest (as_recent c) x ≡ true) rest
recent-remember_first c s up = (
  take 7 (filter (other_dest (as_recent c)) (recent_ssh s)),
  rw (recent-remember c s, up),
  All-take _ 7 _ (All-filter_self (other_dest (as_recent c)) (recent_ssh s)),
)
