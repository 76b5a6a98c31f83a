-- ===== src/Base/Strings.antt =====
-- Text as the list of its UTF-16 code units, which is how a JavaScript string is indexed, with the
-- string operations that the source uses.
use Prim.Native.Char.{code}
use Prim.Native.Nat.{ℕ, zero, suc, ◌+◌, ◌*◌, ◌/◌, ◌%◌, ◌-◌, ◌<◌}
use Prim.Native.String.{String}
use mathlib.Core.Path.{◌≡◌, refl}
use mathlib.Core.Logic.{◌↔◌}
use mathlib.Core.Bool.{Bool, true, false, ◌&&◌, ◌||◌}
use mathlib.Core.List.{List, [], ◌∷◌, ◌++◌}
use native.Mathlib.Omega.{arith}
use app_dockhand.Base.Tests.{if◌then◌else◌, ◌==◌, leb, ltb}
use app_dockhand.Base.Lists.{is_empty, all}

abbrev pub Text : Type 0
Text = List ℕ

-- A literal of the source; those used here lie in the basic plane, one unit to a character.
abbrev pub txt : String → Text
txt String.[] = []
txt (String.◌∷◌ c s) = code c ∷ txt s

-- `a === b`
unfoldable pub text_eq : Text → Text → Bool
text_eq [] [] = true
text_eq [] (d ∷ t) = false
text_eq (c ∷ s) [] = false
text_eq (c ∷ s) (d ∷ t) = (c == d) && text_eq s t

pub text_eq_refl : (s : Text) → text_eq s s ≡ true
unfolding text_eq
text_eq_refl [] = refl
text_eq_refl (c ∷ s) = ground (arith, text_eq_refl s)

pub text_eq_sound : (s t : Text) → text_eq s t ≡ true → s ≡ t
unfolding text_eq
text_eq_sound [] [] h = refl
text_eq_sound [] (d ∷ t) h = cc
text_eq_sound (c ∷ s) [] h = cc
text_eq_sound (c ∷ s) (d ∷ t) h = ground (arith, text_eq_sound s t)

pub text_eq_iff : (s t : Text) → (text_eq s t ≡ true) ↔ (s ≡ t)
text_eq_iff s t = (text_eq_sound s t, λ e. rw e (text_eq_refl t))

-- `s.startsWith(p)`
unfoldable pub starts_with : Text → Text → Bool
starts_with s [] = true
starts_with [] (d ∷ p) = false
starts_with (c ∷ s) (d ∷ p) = (c == d) && starts_with s p

-- `s.includes(p)`
unfoldable pub includes : Text → Text → Bool
unfolding starts_with
includes [] p = is_empty p
includes (c ∷ s) p = starts_with (c ∷ s) p || includes s p

-- The white space that `trim`, `\s` and `split(/\s+/)` know.
unfoldable pub is_space : ℕ → Bool
is_space c =
    (leb 9 c && leb c 13)
    || (c == 32)
    || (c == 160)
    || (c == 0x1680)
    || (leb 0x2000 c && leb c 0x200a)
    || (c == 0x2028)
    || (c == 0x2029)
    || (c == 0x202f)
    || (c == 0x205f)
    || (c == 0x3000)
    || (c == 0xfeff)

abbrev pub is_digit : ℕ → Bool
is_digit c = leb b'0' c && leb c b'9'

-- The text without the white space in front of it.
unfoldable pub trim_start : Text → Text
trim_start [] = []
trim_start (c ∷ s) = if is_space c then trim_start s else c ∷ s

-- The text without the white space behind it.
unfoldable pub trim_end : Text → Text
trim_end [] = []
trim_end (c ∷ s) = let rest = trim_end s in if is_empty rest && is_space c then [] else c ∷ rest

-- `s.trim()`
unfoldable pub trim : Text → Text
unfolding trim_start trim_end
trim s = trim_end (trim_start s)

-- The longest front part whose units pass the test, and what follows it.
unfoldable pub span : (ℕ → Bool) → Text → Text × Text
span p [] = ([], [])
span p (c ∷ s) = let (a, b) = span p s in if p c then (c ∷ a, b) else ([], c ∷ s)

-- `String(n)` of a whole number.
show_digits : ℕ → ℕ → Text
show_digits zero n = []
show_digits (suc f) n =
    let more = show_digits f (n / 10) ++ (b'0' + n % 10) ∷ [] in
    if ltb n 10 then (b'0' + n) ∷ [] else more

unfoldable pub show : ℕ → Text
unfolding show_digits
show n = show_digits (suc n) n

-- `Number(s)` of a text of digits.
unfoldable pub number_from : ℕ → Text → ℕ
number_from acc [] = acc
number_from acc (c ∷ s) = number_from (acc * 10 + (c - b'0')) s

unfoldable pub number : Text → ℕ
unfolding number_from
number s = number_from 0 s

number_from-append :
    (acc : ℕ) (s t : Text) → number_from acc (s ++ t) ≡ number_from (number_from acc s) t
unfolding number_from
number_from-append acc [] t = refl
number_from-append acc (c ∷ s) t = number_from-append (acc * 10 + (c - b'0')) s t

number_from-show_digits : (f n : ℕ) → n < f → number_from 0 (show_digits f n) ≡ n
unfolding number_from show_digits
number_from-show_digits zero n h = elim h [ ]
number_from-show_digits (suc f) n h = ground (
  arith,
  number_from-append 0 (show_digits f (n / 10)) ((b'0' + n % 10) ∷ []),
  number_from-show_digits f (n / 10),
)

-- Reading back the digits of a number gives the number.
pub number-show : (n : ℕ) → number (show n) ≡ n
unfolding number show
number-show n = number_from-show_digits (suc n) n (omega arith)

pub all-append {ℓ} :
    {A : Type ℓ} (p : A → Bool) (xs ys : List A) → all p (xs ++ ys) ≡ (all p xs && all p ys)
all-append p [] ys = refl
all-append p (x ∷ xs) ys = ground (arith, all-append p xs ys)

show_digits-all : (f n : ℕ) → all is_digit (show_digits f n) ≡ true
unfolding show_digits
show_digits-all zero n = refl
show_digits-all (suc f) n = ground (
  arith,
  all-append is_digit (show_digits f (n / 10)) ((b'0' + n % 10) ∷ []),
  show_digits-all f (n / 10),
)

pub show-all_digits : (n : ℕ) → all is_digit (show n) ≡ true
unfolding show
show-all_digits n = show_digits-all (suc n) n

is_empty-snoc : (s : Text) (c : ℕ) → is_empty (s ++ c ∷ []) ≡ false
is_empty-snoc [] c = refl
is_empty-snoc (d ∷ s) c = refl

-- A number has a first digit.
pub show-non_empty : (n : ℕ) → is_empty (show n) ≡ false
unfolding show show_digits
show-non_empty n = ground (arith, is_empty-snoc (show_digits n (n / 10)) (b'0' + n % 10))
