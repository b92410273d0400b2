-- ===== src/Prelude/Text.antt =====
-- Python's `str` as a list of character codes, for ASCII text: `strip`, `lower`, `upper` and `==`.
use Prim.Native.Char.{code}
use Prim.Native.Nat.{ℕ, ◌+◌, ◌-◌}
use Prim.Native.String.{String}
use mathlib.Core.Path.{◌≡◌, refl}
use mathlib.Core.Option.{Option, none, some}
use mathlib.Core.Bool.{Bool, true, false, ◌&&◌, ◌||◌}
use mathlib.Core.List.{List, [], ◌∷◌, ◌++◌, reverse, map}
use native.Mathlib.Omega.{arith}
use fxjournal.Prelude.Tests.{leb, ◌==◌, if◌then◌else◌}

abbrev pub Text : Type 0
Text = List ℕ

-- The codes of a literal.
abbrev pub codes : String → Text
codes String.[] = []
codes (String.◌∷◌ c s) = code c ∷ codes s

unfoldable pub same_text : Text → Text → Bool
same_text [] [] = true
same_text (a ∷ s) (b ∷ t) = a == b && same_text s t
same_text _ _ = false

pub same_text_self : (s : Text) → same_text s s ≡ true
unfolding same_text
same_text_self [] = refl
same_text_self (a ∷ s) = ground (arith, same_text_self s)

pub same_text-eq : (s t : Text) → same_text s t ≡ true → s ≡ t
unfolding same_text
same_text-eq [] [] h = refl
same_text-eq [] (_ ∷ _) h = cc
same_text-eq (_ ∷ _) [] h = cc
same_text-eq (a ∷ s) (b ∷ t) h = ground (arith, same_text-eq s t)

-- `if text` on a string.
abbrev pub is_blank : Text → Bool
is_blank [] = true
is_blank (_ ∷ _) = false

-- `str.isspace` on ASCII: tab to carriage return, the four separators, space.
abbrev pub is_space : ℕ → Bool
is_space c = (leb 9 c && leb c 13) || (leb 28 c && leb c 32)

unfoldable pub drop_while : (ℕ → Bool) → Text → Text
drop_while p [] = []
drop_while p (c ∷ s) = let rest = drop_while p s in if p c then rest else c ∷ s

-- `s.strip(chars)`, the characters given as a test.
unfoldable pub strip_by : (ℕ → Bool) → Text → Text
unfolding drop_while
strip_by p s = reverse (drop_while p (reverse (drop_while p s)))

unfoldable pub strip : Text → Text
unfolding strip_by
strip s = strip_by is_space s

abbrev pub lower_char : ℕ → ℕ
lower_char c = if leb b'A' c && leb c b'Z' then c + 32 else c

abbrev pub upper_char : ℕ → ℕ
upper_char c = if leb b'a' c && leb c b'z' then c - 32 else c

-- `s.lower()`, which is `s.casefold()` on ASCII.
unfoldable pub lower : Text → Text
lower s = map lower_char s

unfoldable pub upper : Text → Text
upper s = map upper_char s

pub lower_idem : (s : Text) → lower (lower s) ≡ lower s
unfolding lower
lower_idem [] = refl
lower_idem (c ∷ s) = ground (arith, lower_idem s)

-- `value or ""` on a string that may be missing.
abbrev pub or_empty : Option Text → Text
or_empty none = []
or_empty (some s) = s

-- The text before the first separator, and what follows it.
split_step : Bool → ℕ → List Text → List Text
split_step true c parts = [] ∷ parts
split_step false c [] = (c ∷ []) ∷ []
split_step false c (part ∷ parts) = (c ∷ part) ∷ parts

-- `s.split(sep)` for a separator of one character.
unfoldable pub split_on : ℕ → Text → List Text
unfolding split_step
split_on sep [] = [] ∷ []
split_on sep (c ∷ s) = split_step (c == sep) c (split_on sep s)

-- `text in collection`.
unfoldable pub contains_text : Text → List Text → Bool
unfolding same_text
contains_text t [] = false
contains_text t (s ∷ rest) = same_text s t || contains_text t rest

-- No text stands in the list twice.
abbrev pub IsDistinct : List Text → Type 0
IsDistinct [] = Unit
IsDistinct (t ∷ rest) = (contains_text t rest ≡ false) × IsDistinct rest

same_text_comm : (s t : Text) → same_text s t ≡ same_text t s
unfolding same_text
same_text_comm [] [] = refl
same_text_comm [] (_ ∷ _) = refl
same_text_comm (_ ∷ _) [] = refl
same_text_comm (a ∷ s) (b ∷ t) = ground (arith, same_text_comm s t)

contains_text-snoc :
    (t s : Text) (rest : List Text)
    → contains_text t (rest ++ s ∷ []) ≡ (contains_text t rest || same_text s t)
unfolding contains_text
contains_text-snoc t s [] = ground arith
contains_text-snoc t s (r ∷ rest) = ground (arith, contains_text-snoc t s rest)

-- A text that is not in a distinct list may be put at its end.
pub snoc-IsDistinct :
    (rest : List Text) (s : Text)
    → IsDistinct rest
    → contains_text s rest ≡ false
    → IsDistinct (rest ++ s ∷ [])
unfolding contains_text
snoc-IsDistinct [] s h k = (refl, tt)
snoc-IsDistinct (t ∷ rest) s h k = (
  ground (arith, contains_text-snoc t s rest, same_text_comm s t),
  snoc-IsDistinct rest s h.1 (ground arith),
)

split_on_example : split_on b',' (codes "a,,b") ≡ codes "a" ∷ [] ∷ codes "b" ∷ []
unfolding split_on
split_on_example = refl

strip_example : strip (codes "  vm 1 ") ≡ codes "vm 1"
unfolding strip
strip_example = refl
