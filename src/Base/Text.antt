-- ===== src/Base/Text.antt =====
-- Texts: equality, and JavaScript's truth of an optional text.
use Prim.Native.String.{String}
use mathlib.Core.Bool.{Bool, true, false, not}
use mathlib.Core.Option.{Option, none, some}
use text.Mathlib.Text.{◌==◌ as text_eq}
use text.Mathlib.TextEquality.{eq_iff}
use mathlib.Core.Path.{◌≡◌, refl}

abbrev pub str_eq : String → String → Bool
str_eq a b = text_eq a b

pub str_eq-eq : (a b : String) → str_eq a b ≡ true → a ≡ b
str_eq-eq a b h = (eq_iff a b).0 h

pub str_eq_refl : (a : String) → str_eq a a ≡ true
str_eq_refl a = (eq_iff a a).1 refl

abbrev pub opt_str_eq : Option String → Option String → Bool
opt_str_eq none none = true
opt_str_eq (some a) (some b) = text_eq a b
opt_str_eq _ _ = false

-- `Boolean(text)`: null and the empty text are false.
abbrev pub truthy : Option String → Bool
truthy none = false
truthy (some s) = not (text_eq s "")
