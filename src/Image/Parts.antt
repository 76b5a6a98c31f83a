-- ===== src/Image/Parts.antt =====
-- How a shell reads a command that is put together from parts.
use mathlib.Core.List.{append_assoc, append-nil}
use app_dockhand.Base.{refl, Text, List, All, ◌∷◌, ◌≡◌, [], ◌++◌, some, map}
use app_dockhand.Image.Quote.{read_text, shell_words, gap, read_unit, bare, read_text-append}
use app_dockhand.Image.Command.{join_parts, line_break}

-- The part is read as the words.
pub record IsPart (part : Text) (words : List Text) : Type 0 where
  pub last : Text
  pub before : List Text
  pub is_read : read_text gap part ≡ some (bare last, before)
  pub words_eq : words ≡ before ++ last ∷ []

abbrev pub Agrees : List Text → List (List Text) → Type 0
Agrees [] [] = Unit
Agrees (p ∷ ps) (ws ∷ wss) = IsPart p ws × Agrees ps wss
Agrees _ _ = ⊥

pub Agrees-append :
    (ps qs : List Text) (vs ws : List (List Text))
    → Agrees ps vs
    → Agrees qs ws
    → Agrees (ps ++ qs) (vs ++ ws)
Agrees-append [] qs [] ws h k = k
Agrees-append [] qs (v ∷ vs) ws h k = absurd h
Agrees-append (p ∷ ps) qs [] ws h k = absurd h
Agrees-append (p ∷ ps) qs (v ∷ vs) ws (a, h) k = (a, Agrees-append ps qs vs ws h k)

pub Agrees-map :
    {A : Type 0} (P : A → Type 0) (f : A → Text) (g : A → List Text)
    → ((x : A) → P x → IsPart (f x) (g x))
    → (xs : List A) → All P xs
    → Agrees (map f xs) (map g xs)
Agrees-map P f g h [] k = tt
Agrees-map P f g h (x ∷ xs) (p, k) = (h x p, Agrees-map P f g h xs k)

pub All_unit : {A : Type 0} (xs : List A) → All (λ x. Unit {0}) xs
All_unit [] = tt
All_unit (x ∷ xs) = (tt, All_unit xs)

-- A flag and the word that follows it.
pub flag-IsPart :
    (flag q : Text) (f w : Text)
    → read_text gap flag ≡ some (gap, f ∷ [])
    → read_text gap q ≡ some (bare w, [])
    → IsPart (flag ++ q) (f ∷ w ∷ [])
flag-IsPart flag q f w h k = record {
  last = w;
  before = f ∷ [];
  is_read = rw (read_text-append flag q gap, h, k) refl;
  words_eq = refl;
}

pub word-IsPart : (q w : Text) → read_text gap q ≡ some (bare w, []) → IsPart q (w ∷ [])
word-IsPart q w k = record { last = w; before = []; is_read = k; words_eq = refl }

abbrev pub concat : List (List Text) → List Text
concat [] = []
concat (ws ∷ wss) = ws ++ concat wss

line_break_lem : (w : Text) → read_text (bare w) line_break ≡ some (gap, w ∷ [])
unfolding read_text read_unit
line_break_lem w = refl

joined-IsPart :
    (p q : Text) (vs ws : List Text)
    → IsPart p vs
    → IsPart q ws
    → IsPart (p ++ (line_break ++ q)) (vs ++ ws)
joined-IsPart p q vs ws h k = record {
  last = k.last;
  before = h.before ++ (h.last ∷ k.before);
  is_read =
      rw
        (
          read_text-append p (line_break ++ q) gap,
          h.is_read,
          read_text-append line_break q (bare h.last),
          line_break_lem h.last,
          k.is_read,
        )
        refl;
  words_eq = rw (h.words_eq, k.words_eq) (simp append_assoc);
}

pub join_parts-IsPart :
    (p : Text) (ps : List Text) (ws : List Text) (wss : List (List Text))
    → Agrees (p ∷ ps) (ws ∷ wss)
    → IsPart (join_parts (p ∷ ps)) (concat (ws ∷ wss))
unfolding join_parts
join_parts-IsPart p [] ws [] (h, k) = rw (append-nil ws) h
join_parts-IsPart p [] ws (v ∷ vs) (h, k) = absurd k
join_parts-IsPart p (q ∷ ps) ws [] (h, k) = absurd k
join_parts-IsPart p (q ∷ ps) ws (v ∷ vs) (h, k) =
    joined-IsPart p (join_parts (q ∷ ps)) ws (concat (v ∷ vs)) h (join_parts-IsPart q ps v vs k)

pub IsPart-shell_words : (p : Text) (ws : List Text) → IsPart p ws → shell_words p ≡ some ws
unfolding shell_words
IsPart-shell_words p ws h = rw (h.is_read, h.words_eq) refl
