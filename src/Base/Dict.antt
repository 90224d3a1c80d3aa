-- ===== src/Base/Dict.antt =====
-- A dict of Python with texts as keys.
use mathlib.Core.Path.{◌≡◌, refl}
use mathlib.Core.Option.{Option, none, some}
use mathlib.Core.List.{List, [], ◌∷◌}
use Prim.Native.String.{String}
use native.Mathlib.Omega.{arith}
use text.Mathlib.TextEquality.{eq_iff}
use nexobank_backend.Base.Tests.{if◌then◌else◌}
use nexobank_backend.Base.Text.{str_eq}

-- the entries, in the order of insertion
abbrev pub Dict : Type 0 → Type 0
Dict A = List (String × A)

abbrev pub get : {A : Type 0} → String → Dict A → Option A
get key [] = none
get key ((k, v) ∷ d) = if str_eq k key then some v else get key d

abbrev pub get_or : {A : Type 0} → A → Option A → A
get_or default none = default
get_or default (some v) = v

-- `d[key] = value`
unfoldable pub set_key : {A : Type 0} → String → A → Dict A → Dict A
set_key key value [] = (key, value) ∷ []
set_key key value ((k, v) ∷ d) =
    let rest = set_key key value d in if str_eq k key then (k, value) ∷ d else (k, v) ∷ rest

pub get-set_key :
    {A : Type 0} (key c : String) (v : A) (d : Dict A)
    → get c (set_key key v d) ≡ (if str_eq key c then some v else get c d)
unfolding set_key
get-set_key key c v [] = refl
get-set_key key c v ((k, w) ∷ d) =
    ground (arith, eq_iff k key, eq_iff k c, eq_iff key c, get-set_key key c v d)

pub set_key-present :
    {A : Type 0} (key : String) (v : A) (d : Dict A) → get key d ≡ some v → set_key key v d ≡ d
unfolding set_key
set_key-present key v [] h = ground (arith, h)
set_key-present key v ((k, w) ∷ d) h = ground (arith, h, set_key-present key v d)
