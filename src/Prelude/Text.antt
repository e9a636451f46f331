-- ===== src/Prelude/Text.antt =====
-- Go strings are native texts; `str_eq` is `==` on them.
use mathlib.Core.Path.{◌≡◌, refl}
use mathlib.Core.Bool.{Bool, true, false, ◌&&◌, ◌||◌}
use mathlib.Core.Logic.{◌≢◌}
use mathlib.Core.List.{List, [], ◌∷◌}
use Prim.Native.Nat.{ℕ, zero, suc, ◌+◌, ◌/◌, ◌%◌}
use Prim.Native.Char.{code}
use Prim.Native.String.{String, ◌++◌}
use summer_project.Prelude.Tests.{◌==◌ as nat_eq, leb, if◌then◌else◌}
use summer_project.Prelude.Int.{ℤ, pos, negsuc}
use native.Mathlib.Omega.{arith}
use text.Mathlib.Text.{◌==◌}
pub use text.Mathlib.Text.{◌==◌ as str_eq}
pub use text.Mathlib.TextEquality.{eq_iff}
pub use text.Mathlib.TextPositions.{eq_refl}
pub use text.Mathlib.TextLemmas.{append_cancel_left}
use text.Mathlib.TextLemmas.{append-eq-nil_iff}

pub str_eq-false : (s t : String) → s ≢ t → (s == t) ≡ false
str_eq-false s t h = ground (arith, eq_iff s t)

pub str_eq-append : (s t : String) → (s == "") ≡ false → (s ++ t == "") ≡ false
str_eq-append s t h =
    str_eq-false (s ++ t) ""
      (λ e. cc (h, (eq_iff s "").1 ((append-eq-nil_iff {p = s} {q = t}).0 e).0))

-- What `fmt.Sprintf` builds from its parts.
abbrev pub sprint : List String → String
sprint [] = ""
sprint (s ∷ []) = s
sprint (s ∷ t ∷ ss) = s ++ sprint (t ∷ ss)

digit : ℕ → String
digit zero = "0"
digit (suc zero) = "1"
digit (suc (suc zero)) = "2"
digit (suc (suc (suc zero))) = "3"
digit (suc (suc (suc (suc zero)))) = "4"
digit (suc (suc (suc (suc (suc zero))))) = "5"
digit (suc (suc (suc (suc (suc (suc zero)))))) = "6"
digit (suc (suc (suc (suc (suc (suc (suc zero))))))) = "7"
digit (suc (suc (suc (suc (suc (suc (suc (suc zero)))))))) = "8"
digit _ = "9"

show_from : ℕ → ℕ → String → String
unfolding digit
show_from zero n acc = acc
show_from (suc fuel) n acc =
    let longer = digit (n % 10) ++ acc in
    let rest = show_from fuel (n / 10) longer in if nat_eq (n / 10) 0 then longer else rest

-- The verb %d at an integer that is not negative, and at any integer.
unfoldable pub show_ℕ : ℕ → String
unfolding show_from
show_ℕ n = show_from (suc n) n ""

unfoldable pub show_ℤ : ℤ → String
unfolding show_ℕ
show_ℤ (pos n) = show_ℕ n
show_ℤ (negsuc n) = "-" ++ show_ℕ (suc n)

show_ℤ_test : show_ℤ (negsuc 1041) ≡ "-1042"
unfolding show_ℤ
show_ℤ_test = refl

-- The code points of a text, and strings.ToLower on those of ASCII.
abbrev pub codes : String → List ℕ
codes String.[] = []
codes (String.◌∷◌ c s) = code c ∷ codes s

abbrev pub lower : ℕ → ℕ
lower c = if leb b'A' c && leb c b'Z' then c + 32 else c

-- strings.HasPrefix and strings.Contains, on code points.
unfoldable pub begins : List ℕ → List ℕ → Bool
begins s [] = true
begins [] (c ∷ t) = false
begins (d ∷ s) (c ∷ t) = nat_eq c d && begins s t

unfoldable pub contains : List ℕ → List ℕ → Bool
unfolding begins
contains [] t = begins [] t
contains (c ∷ s) t = begins (c ∷ s) t || contains s t
