-- ===== src/Setup.antt =====
-- web/app/setup/page.tsx: how strong the page calls a password.
mod Tests
use app_dockhand.Base.{
  ℕ, refl, max, ◌<◌, arith, Text, Bool, leb, not, length, if◌then◌else◌, ◌∷◌, ◌≤◌, ◌&&◌, ◌||◌,
  filter, ◌≡◌, any, ◌↔◌, ◌+◌, [],
}

-- The classes of characters; of a character beyond the first plane each unit is in the last class, as
-- the expression has no `u` flag.
abbrev pub is_lower : ℕ → Bool
is_lower c = leb 97 c && leb c 122

abbrev pub is_upper : ℕ → Bool
is_upper c = leb 65 c && leb c 90

abbrev pub is_digit : ℕ → Bool
is_digit c = leb 48 c && leb c 57

abbrev pub is_other : ℕ → Bool
is_other c = not (is_lower c || is_upper c || is_digit c)

unfoldable pub classes : Text → ℕ
classes pw = length (filter (λ r. any r pw) (is_lower ∷ is_upper ∷ is_digit ∷ is_other ∷ []))

-- `if (…) s++`
abbrev pub point : Bool → ℕ
point b = if b then 1 else 0

abbrev pub rate : ℕ → ℕ → ℕ
rate n k = max 1 (
    point (leb 8 n)
    + point (leb 12 n)
    + point (leb 2 k && leb 10 n)
    + point (leb 3 k && leb 14 n || leb 20 n))

unfoldable pub strength : Text → ℕ
strength [] = 0
strength (c ∷ s) = rate (length (c ∷ s)) (classes (c ∷ s))

point-bound : (b : Bool) → point b ≤ 1
point-bound b = ground arith

rate-bound : (n k : ℕ) → (rate n k ≤ 4) × (1 ≤ rate n k)
rate-bound n k =
    let a = point-bound (leb 8 n) in
    let b = point-bound (leb 12 n) in
    let c = point-bound (leb 2 k && leb 10 n) in
    let d = point-bound (leb 3 k && leb 14 n || leb 20 n) in (omega arith, omega arith)

-- The strength is an index of the table of labels, and only the empty password has the first one.
pub strength-bound : (pw : Text) → (strength pw ≤ 4) × ((strength pw ≡ 0) ↔ (pw ≡ []))
unfolding strength
strength-bound [] = (omega arith, (λ h. refl, λ h. refl))
strength-bound (c ∷ s) =
    let (le, ge) = rate-bound (length (c ∷ s)) (classes (c ∷ s)) in
    (le, (λ h. absurd (omega arith), λ h. ground arith))

-- A password of less than eight units is weak at most, and one of twenty or more is good at least.
pub strength-length :
    (pw : Text) → (length pw < 8 → strength pw ≤ 1) × (20 ≤ length pw → 3 ≤ strength pw)
unfolding strength
strength-length [] = (λ h. omega arith, λ h. omega arith)
strength-length (c ∷ s) = rate-length (length (c ∷ s)) (classes (c ∷ s))
  where
    rate-length : (n k : ℕ) → (n < 8 → rate n k ≤ 1) × (20 ≤ n → 3 ≤ rate n k)
    rate-length n k = (λ h. ground arith, λ h. ground arith)
