-- ===== src/Base/Commas.antt =====
-- Lists of texts in one text: `strings.Join(l, ",")` and `strings.SplitSeq(s, ",")`.

use Prim.Native.Char.{Char, code}
use Prim.Native.String.{String, ◌++◌ as ◌<>◌}
use mathlib.Core.Path.{◌≡◌, refl, ◌∙◌, ap}
use mathlib.Core.Logic.{◌≢◌}
use mathlib.Core.List.{List, [], ◌∷◌}
use native.Mathlib.Omega.{arith}
use text.Mathlib.TextLemmas.{nil-append, cons-append, cons-ne-nil}
use shoot_grafter.Base.Tests.{if◌then◌else◌, ◌!=◌, nat_eq, All}

unfoldable pub join : List String → String
join [] = ""
join (k ∷ []) = k
join (k ∷ l ∷ ks) = k <> ("," <> join (l ∷ ks))

-- A character before the first part.
abbrev pub to_first : Char → List String → List String
to_first c [] = String.◌∷◌ c "" ∷ []
to_first c (k ∷ ks) = String.◌∷◌ c k ∷ ks

unfoldable pub split : String → List String
split String.[] = "" ∷ []
split (String.◌∷◌ c s) =
    let rest = split s in if nat_eq (code c) b',' then "" ∷ rest else to_first c rest

abbrev pub IsCommaFree : String → Type 0
IsCommaFree String.[] = Unit
IsCommaFree (String.◌∷◌ c s) = (code c ≢ b',') × IsCommaFree s

split-comma : (s : String) → split ("," <> s) ≡ "" ∷ split s
unfolding split
split-comma s = rw (cons-append, nil-append) refl

split-first : (k s : String) → IsCommaFree k → split (k <> ("," <> s)) ≡ k ∷ split s
unfolding split
split-first String.[] s h = rw nil-append (split-comma s)
split-first (String.◌∷◌ c k) s h = rw cons-append (ground (arith, split-first k s h.1))

split_one : (k : String) → IsCommaFree k → split k ≡ k ∷ []
unfolding split
split_one String.[] h = refl
split_one (String.◌∷◌ c k) h = ground (arith, split_one k h.1)

-- Texts without a comma come back, if there is one at least.
pub split-join :
    (k : String) (ks : List String) → All IsCommaFree (k ∷ ks) → split (join (k ∷ ks)) ≡ k ∷ ks
unfolding join
split-join k [] h = split_one k h.0
split-join k (l ∷ ks) h = split-first k (join (l ∷ ks)) h.0 ∙ ap (◌∷◌ k) (split-join l ks h.1)

-- A text that can be told apart in a joined list.
abbrev pub IsPart : String → Type 0
IsPart s = (s ≢ "") × IsCommaFree s

join-ne-nil : (k : String) (ks : List String) → k ≢ "" → join (k ∷ ks) ≢ ""
unfolding join
join-ne-nil k [] h = h
join-ne-nil String.[] (l ∷ ks) h = absurd (h refl)
join-ne-nil (String.◌∷◌ c k) (l ∷ ks) h = rw cons-append (cons-ne-nil c _)

All-IsCommaFree : (ks : List String) → All IsPart ks → All IsCommaFree ks
All-IsCommaFree [] h = tt
All-IsCommaFree (k ∷ ks) h = (h.0.1, All-IsCommaFree ks h.1)

-- The parts of a text, where the empty text has none.
abbrev pub parts : String → List String
parts s = if s != "" then split s else []

pub parts-join : (ks : List String) → All IsPart ks → parts (join ks) ≡ ks
parts-join [] h = unfold join in ground arith
parts-join (k ∷ ks) h =
    ground (arith, join-ne-nil k ks h.0.0, split-join k ks (All-IsCommaFree (k ∷ ks) h))
