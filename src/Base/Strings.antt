-- ===== src/Base/Strings.antt =====
-- JavaScript strings as lists of UTF-16 code units, compared by content, and `trim`.
use Prim.Native.Nat.{ℕ, suc}
use Prim.Native.Char.{code}
use Prim.Native.String.{String}
use mathlib.Core.Path.{◌≡◌, refl, ap, ◌∙◌}
use mathlib.Core.Logic.{◌↔◌}
use mathlib.Core.Bool.{Bool, true, false, ◌&&◌, ◌||◌, not}
use mathlib.Core.List.{List, [], ◌∷◌, ◌++◌}
use mathlib.Core.Option.{Option, none, some}
use native.Mathlib.Omega.{arith}
use ichat.Base.Tests.{leb, ◌==◌, if◌then◌else◌}
use ichat.Base.Lists.{is_empty, any, filter}

abbrev pub Text : Type 0
Text = List ℕ

-- A literal of the source. Its characters are below U+10000, where a code point is one unit.
abbrev pub codes : String → Text
codes String.[] = []
codes (String.◌∷◌ c s) = code c ∷ codes s

-- `s === t` on strings.
unfoldable pub text_eq : Text → Text → Bool
text_eq [] [] = true
text_eq (a ∷ s) (b ∷ t) = a == b && text_eq s t
text_eq _ _ = false

pub text_eq_sound : (s t : Text) → text_eq s t ≡ true → s ≡ t
unfolding text_eq
text_eq_sound [] [] h = refl
text_eq_sound [] (b ∷ t) h = cc
text_eq_sound (a ∷ s) [] h = cc
text_eq_sound (a ∷ s) (b ∷ t) h = ground (arith, text_eq_sound s t)

pub text_eq_refl : (s : Text) → text_eq s s ≡ true
unfolding text_eq
text_eq_refl [] = refl
text_eq_refl (a ∷ s) = ground (arith, text_eq_refl s)

pub text_eq_iff : (s t : Text) → (text_eq s t ≡ true) ↔ (s ≡ t)
text_eq_iff s t = (text_eq_sound s t, λ e. rw e (text_eq_refl t))

-- `o === s` where `o` may be null.
abbrev pub option_is : Option Text → Text → Bool
option_is none s = false
option_is (some t) s = text_eq t s

-- `ids.includes(id)`, and `set.has(id)` for the set of these.
abbrev pub includes : List Text → Text → Bool
includes ids id = any (λ x. text_eq x id) ids

-- No text occurs twice.
abbrev pub Distinct : List Text → Type 0
Distinct [] = Unit
Distinct (x ∷ xs) = (includes xs x ≡ false) × Distinct xs

-- What `trim` and `\s` take for white space: WhiteSpace and LineTerminator of ECMAScript.
unfoldable pub is_space : ℕ → Bool
is_space c =
    leb 0x9 c && leb c 0xd
    || c == 0x20
    || c == 0xa0
    || c == 0x1680
    || leb 0x2000 c && leb c 0x200a
    || c == 0x2028
    || c == 0x2029
    || c == 0x202f
    || c == 0x205f
    || c == 0x3000
    || c == 0xfeff

unfoldable pub trim_start : Text → Text
unfolding is_space
trim_start [] = []
trim_start (c ∷ s) = if is_space c then trim_start s else c ∷ s

unfoldable pub trim_end : Text → Text
unfolding is_space
trim_end [] = []
trim_end (c ∷ s) = let rest = trim_end s in if is_space c && is_empty rest then [] else c ∷ rest

unfoldable pub trim : Text → Text
unfolding trim_start trim_end
trim s = trim_end (trim_start s)

-- `s.trim() !== ""`.
unfoldable pub is_visible : Text → Bool
unfolding trim
is_visible s = not (is_empty (trim s))

-- `s?.trim()` as a condition.
unfoldable pub has_text : Option Text → Bool
unfolding is_visible
has_text none = false
has_text (some s) = is_visible s

pub text_eq_sym : (s t : Text) → text_eq s t ≡ text_eq t s
text_eq_sym s t = ground (arith, text_eq_iff s t, text_eq_iff t s)

pub includes-eq :
    (ids : List Text) (s t : Text) → text_eq s t ≡ true → includes ids s ≡ includes ids t
includes-eq ids s t h = ap (includes ids) (text_eq_sound s t h)

pub includes-append :
    (xs ys : List Text) (t : Text) → includes (xs ++ ys) t ≡ (includes xs t || includes ys t)
includes-append [] ys t = refl
includes-append (x ∷ xs) ys t = ground (arith, includes-append xs ys t)

-- No text stands in both lists.
abbrev pub Apart : List Text → List Text → Type 0
Apart xs ys = (t : Text) → includes xs t ≡ true → includes ys t ≡ false

pub Distinct-append :
    (xs ys : List Text) → Distinct xs → Distinct ys → Apart xs ys → Distinct (xs ++ ys)
Distinct-append [] ys p q apart = q
Distinct-append (x ∷ xs) ys (fresh, p) q apart = (
  includes-append xs ys x ∙ ground (arith, apart x (ground (arith, text_eq_refl x))),
  Distinct-append xs ys p q (λ t h. apart t (ground arith)),
)

-- A text added at the end unless it is there.
pub Distinct-add :
    (xs : List Text) (t : Text) → Distinct xs → includes xs t ≡ false → Distinct (xs ++ t ∷ [])
Distinct-add xs t p h =
    Distinct-append xs (t ∷ []) p (refl, tt)
      (λ x e. ground (arith, text_eq_sym t x, includes-eq xs x t))

pub includes-filter :
    (p : Text → Bool) (xs : List Text) (t : Text)
    → includes (filter p xs) t ≡ (includes xs t && p t)
includes-filter p [] t = refl
includes-filter p (x ∷ xs) t =
    ground (arith, includes-filter p xs t, λ (h : text_eq x t ≡ true). ap p (text_eq_sound x t h))

pub Distinct-filter : (p : Text → Bool) (xs : List Text) → Distinct xs → Distinct (filter p xs)
Distinct-filter p [] h = tt
Distinct-filter p (x ∷ xs) h = ground (arith, Distinct-filter p xs h.1, includes-filter p xs x)

-- `s.startsWith(p)`.
unfoldable pub starts_with : Text → Text → Bool
starts_with [] s = true
starts_with (a ∷ p) [] = false
starts_with (a ∷ p) (b ∷ s) = a == b && starts_with p s

-- `s.indexOf(p)`, `none` for -1.
unfoldable pub index_of : Text → Text → Option ℕ
unfolding starts_with
index_of p [] = if is_empty p then some 0 else none
index_of p (c ∷ s) = elim (starts_with p (c ∷ s)) [
  | true ↦ some 0
  | false ↦ elim (index_of p s) [ none ↦ none | some i ↦ some (suc i) ]
]

-- `parts.join(sep)`.
unfoldable pub join : Text → List Text → Text
join sep [] = []
join sep (x ∷ []) = x
join sep (x ∷ y ∷ xs) = x ++ (sep ++ join sep (y ∷ xs))
