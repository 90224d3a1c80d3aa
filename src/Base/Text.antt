-- ===== src/Base/Text.antt =====
-- Texts: equality, `str.upper` on ASCII, and lengths in characters.
use Prim.Native.Nat.{ℕ, ◌-◌}
use Prim.Native.Char.{Char, code}
use Prim.Native.String.{String, char_at, count}
use mathlib.Core.Path.{◌≡◌, refl}
use mathlib.Core.Bool.{Bool, false, ◌&&◌}
use mathlib.Core.Option.{Option, none, some}
use text.Mathlib.Text.{◌==◌ as text_eq}
use nexobank_backend.Base.Tests.{leb, if◌then◌else◌}

abbrev pub str_eq : String → String → Bool
str_eq = text_eq

-- `column = value` in SQL, where the column may be NULL
abbrev pub is_text : String → Option String → Bool
is_text s none = false
is_text s (some t) = str_eq t s

-- `len(s)`
abbrev pub length_text : String → ℕ
length_text s = count s

upper_char : Char → Char
upper_char c =
    if leb 97 (code c) && leb (code c) 122
    then char_at "ABCDEFGHIJKLMNOPQRSTUVWXYZ" (code c - 97)
    else c

-- `str.upper` on ASCII texts; other characters stay as they are.
unfoldable pub upper : String → String
unfolding upper_char
upper String.[] = String.[]
upper (String.◌∷◌ c s) = String.◌∷◌ (upper_char c) (upper s)

lower_char : Char → Char
lower_char c =
    if leb 65 (code c) && leb (code c) 90
    then char_at "abcdefghijklmnopqrstuvwxyz" (code c - 65)
    else c

-- `str.lower` on ASCII texts
unfoldable pub lower : String → String
unfolding lower_char
lower String.[] = String.[]
lower (String.◌∷◌ c s) = String.◌∷◌ (lower_char c) (lower s)

upper_test : upper "mxN-1" ≡ "MXN-1"
unfolding upper
upper_test = refl
