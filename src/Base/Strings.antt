-- ===== src/Base/Strings.antt =====
-- Go strings. A text is the list of its code points; every string of the program is read as UTF-8
-- (`range` and encoding/json read an invalid byte as U+FFFD, and so does the model).
use Prim.Native.Nat.{ℕ}
use Prim.Native.Char.{code}
use Prim.Native.String.{String}
use mathlib.Core.Path.{◌≡◌, refl}
use mathlib.Core.Logic.{◌↔◌}
use mathlib.Core.Bool.{Bool, true, false, ◌&&◌}
use mathlib.Core.List.{List, [], ◌∷◌, ◌++◌}
use mathlib.Core.Option.{Option, none, some}
use native.Mathlib.Omega.{arith}
use nodefoundry.Base.Tests.{◌==◌, ==_iff, if◌then◌else◌}

abbrev pub Text : Type 0
Text = List ℕ

abbrev pub codes : String → Text
codes String.[] = []
codes (String.◌∷◌ c s) = code c ∷ codes s

-- `s == t` on Go strings.
unfoldable pub text_eq : Text → Text → Bool
text_eq [] [] = true
text_eq (x ∷ xs) (y ∷ ys) = x == y && text_eq xs ys
text_eq _ _ = false

pub text_eq_iff : (s t : Text) → (text_eq s t ≡ true) ↔ (s ≡ t)
unfolding text_eq
text_eq_iff [] [] = (λ _. refl, λ _. refl)
text_eq_iff [] (y ∷ ys) = ground arith
text_eq_iff (x ∷ xs) [] = ground arith
text_eq_iff (x ∷ xs) (y ∷ ys) = ground (arith, text_eq_iff xs ys, ==_iff x y)

pub text_eq_refl : (s : Text) → text_eq s s ≡ true
text_eq_refl s = (text_eq_iff s s).1 refl

abbrev first_part : ℕ → List Text → List Text
first_part c [] = (c ∷ []) ∷ []
first_part c (p ∷ ps) = (c ∷ p) ∷ ps

-- `strings.Split(s, sep)` at a separator of one character.
unfoldable pub split : ℕ → Text → List Text
split sep [] = [] ∷ []
split sep (c ∷ t) = let rest = split sep t in if c == sep then [] ∷ rest else first_part c rest

-- The separator does not occur in the text.
abbrev pub IsFree : ℕ → Text → Type 0
IsFree sep [] = Unit
IsFree sep (c ∷ t) = ((c == sep) ≡ false) × IsFree sep t

pub split-IsFree : (sep : ℕ) (t : Text) → IsFree sep t → split sep t ≡ t ∷ []
unfolding split
split-IsFree sep [] h = refl
split-IsFree sep (c ∷ t) h = rw (h.0, split-IsFree sep t h.1)

pub split-append :
    (sep : ℕ) (a b : Text) → IsFree sep a → split sep (a ++ sep ∷ b) ≡ a ∷ split sep b
unfolding split
split-append sep [] b h = rw ((==_iff sep sep).1 refl)
split-append sep (c ∷ a) b h = rw (h.0, split-append sep a b h.1)

-- The text before the first `q`, and the text after it.
abbrev pub until : ℕ → Text → Option (Text × Text)
until q [] = none
until q (c ∷ t) =
    let later = until q t in
    if c == q then some ([], t) else elim later [ none ↦ none | some (a, b) ↦ some (c ∷ a, b) ]

pub until-append : (q : ℕ) (t rest : Text) → IsFree q t → until q (t ++ q ∷ rest) ≡ some (t, rest)
until-append q [] rest h = rw ((==_iff q q).1 refl) refl
until-append q (c ∷ t) rest h = rw (h.0, until-append q t rest h.1) refl
