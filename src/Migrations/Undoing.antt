-- ===== src/Migrations/Undoing.antt =====
-- What a downgrade undoes of its upgrade, and what it leaves.
use mathlib.Core.Path.{sym, ap}
use nexobank_backend.Base.{
  ◌≡◌, refl, ◌∙◌, ◌||◌, not, String, Bool, true, false, Option, none, some, List, [], ◌∷◌, ◌++◌,
  arith, eq_iff, Option-cases, Bool-cases, inl, inr,
}
use text.Mathlib.TextPositions.{eq_refl}
use nexobank_backend.Migrations.{
  ForeignKey, Index, Table, Schema, Op, create_table, create_index, drop_index, drop_table,
  has_table, enums_of, any_name, keys_fit, refers_to, is_referred_to, add_index, apply, run,
}

-- A table with the indexes that are made on it.
abbrev pub Plan : Type 0
Plan = Table × List Index

abbrev creates : String → List Index → List Op
creates n [] = []
creates n (i ∷ rest) = create_index n i ∷ creates n rest

abbrev drops : String → List Index → List Op
drops n [] = []
drops n (i ∷ rest) = drops n rest ++ drop_index i.name n ∷ []

abbrev pub build : List Plan → List Op
build [] = []
build (p ∷ rest) = create_table p.0 ∷ (creates p.0.name p.1 ++ build rest)

abbrev pub unbuild : List Plan → List Op
unbuild [] = []
unbuild (p ∷ rest) = unbuild rest ++ (drops p.0.name p.1 ++ drop_table p.0.name ∷ [])

abbrev then_run : List Op → Option Schema → Option Schema
then_run ops none = none
then_run ops (some s) = run ops s

run-append : (a b : List Op) (s : Schema) → run (a ++ b) s ≡ then_run b (run a s)
unfolding run
run-append [] b s = refl
run-append (op ∷ a) b s = elim (Option-cases (apply op s)) [
  | inl e ↦ ground (arith, e)
  | inr (u, e) ↦ ground (arith, e, run-append a b u)
]

-- the table at the front with the indexes
abbrev pub indexed : Table → List Index → Table
indexed t [] = t
indexed t (i ∷ rest) = indexed (add_index i t) rest

abbrev pub front : Table → Schema → Schema
front t s = record s { tables = t ∷ s.tables }

run-creates :
    (t : Table) (is : List Index) (s : Schema)
    → run (creates t.name is) (front t s) ≡ some (front (indexed t is) s)
unfolding run apply
run-creates t [] s = refl
run-creates t (i ∷ is) s = ground (arith, eq_refl t.name, run-creates (add_index i t) is s)

run-drops :
    (t : Table) (is : List Index) (s : Schema)
    → run (drops t.name is) (front (indexed t is) s) ≡ some (front t s)
unfolding run apply
run-drops t [] s = refl
run-drops t (i ∷ is) s =
    run-append (drops t.name is) (drop_index i.name t.name ∷ []) (front (indexed t (i ∷ is)) s)
    ∙ ground (arith, eq_refl t.name, eq_refl i.name, run-drops (add_index i t) is s)

-- Every key of the schema refers to one of its tables.
abbrev pub Closed : List Table → List Table → Type 0
Closed [] all = Unit
Closed (t ∷ rest) all = (keys_fit t.foreign_keys all ≡ true) × Closed rest all

keys_fit-more :
    (ks : List ForeignKey) (t : Table) (all : List Table)
    → keys_fit ks all ≡ true
    → keys_fit ks (t ∷ all) ≡ true
keys_fit-more [] t all h = refl
keys_fit-more (k ∷ ks) t all h = ground (arith, keys_fit-more ks t all)

Closed-more :
    (rest : List Table) (t : Table) (all : List Table) → Closed rest all → Closed rest (t ∷ all)
Closed-more [] t all c = tt
Closed-more (u ∷ rest) t all c =
    (keys_fit-more u.foreign_keys t all c.0, Closed-more rest t all c.1)

no_reference :
    (n : String) (ks : List ForeignKey) (all : List Table)
    → keys_fit ks all ≡ true
    → has_table n all ≡ false
    → refers_to n ks ≡ false
no_reference n [] all h f = refl
no_reference n (k ∷ ks) all h f = ground (arith, eq_iff k.references n, no_reference n ks all)

none_refers :
    (n : String) (rest all : List Table)
    → Closed rest all
    → has_table n all ≡ false
    → is_referred_to n rest ≡ false
none_refers n [] all c f = refl
none_refers n (t ∷ rest) all c f =
    ground (arith, no_reference n t.foreign_keys all c.0 f, none_refers n rest all c.1 f)

indexed-name : (t : Table) (is : List Index) → (indexed t is).name ≡ t.name
indexed-name t [] = refl
indexed-name t (i ∷ is) = indexed-name (add_index i t) is

indexed-keys : (t : Table) (is : List Index) → (indexed t is).foreign_keys ≡ t.foreign_keys
indexed-keys t [] = refl
indexed-keys t (i ∷ is) = indexed-keys (add_index i t) is

keys_fit-renamed :
    (ks : List ForeignKey) (t u : Table) (all : List Table)
    → t.name ≡ u.name
    → keys_fit ks (t ∷ all) ≡ keys_fit ks (u ∷ all)
keys_fit-renamed [] t u all e = refl
keys_fit-renamed (k ∷ ks) t u all e = ground (arith, e, keys_fit-renamed ks t u all e)

-- what the database has against a new table
abbrev pub refuses : Table → Schema → Bool
refuses t s =
    has_table t.name s.tables
    || any_name (enums_of t.columns) s.types
    || not (keys_fit t.foreign_keys (t ∷ s.tables))

abbrev pub typed : Table → Schema → Schema
typed t s = record s { types = enums_of t.columns ++ s.types }

-- the first table of a plan is made, then the rest on top of it
pub built-first :
    (t : Table) (is : List Index) (rest : List Plan) (s : Schema)
    → refuses t s ≡ false
    → run (build ((t, is) ∷ rest)) s ≡ run (build rest) (front (indexed t is) (typed t s))
unfolding run apply
built-first t is rest s ok = ground (
  arith,
  ok,
  run-append (creates t.name is) (build rest) (front t (typed t s)),
  run-creates t is (typed t s),
)

pub refused-first :
    (t : Table) (is : List Index) (rest : List Plan) (s : Schema)
    → refuses t s ≡ true
    → run (build ((t, is) ∷ rest)) s ≡ none
unfolding run apply
refused-first t is rest s bad = ground (arith, bad)

Closed-front :
    (t : Table) (is : List Index) (s : Schema)
    → refuses t s ≡ false
    → Closed s.tables s.tables
    → Closed (indexed t is ∷ s.tables) (indexed t is ∷ s.tables)
Closed-front t is s ok c = (
  ap (λ ks. keys_fit ks (indexed t is ∷ s.tables)) (indexed-keys t is)
      ∙ keys_fit-renamed t.foreign_keys (indexed t is) t s.tables (indexed-name t is)
      ∙ ground (arith, ok),
  Closed-more s.tables (indexed t is) s.tables c,
)

-- the last of the undoing: the indexes, then the table
drops-first :
    (t : Table) (is : List Index) (s : Schema)
    → is_referred_to t.name s.tables ≡ false
    → run (drops t.name is ++ drop_table t.name ∷ []) (front (indexed t is) s) ≡ some s
unfolding run apply
drops-first t is s free =
    run-append (drops t.name is) (drop_table t.name ∷ []) (front (indexed t is) s)
    ∙ ground (arith, run-drops t is s, eq_refl t.name, free)

pub undo :
    (plans : List Plan) (s s' : Schema)
    → Closed s.tables s.tables
    → run (build plans) s ≡ some s'
    → run (unbuild plans) s' ≡ some (record s { types = s'.types })
unfolding run
undo [] s s' c h = ground arith
undo ((t, is) ∷ rest) s s' c h = elim (Bool-cases (refuses t s)) [
  | inl bad ↦ absurd (ground (arith, refused-first t is rest s bad))
  | inr ok ↦
      run-append (unbuild rest) (drops t.name is ++ drop_table t.name ∷ []) s'
      ∙ ap (then_run (drops t.name is ++ drop_table t.name ∷ [])) (
          undo rest (front (indexed t is) (typed t s)) s' (Closed-front t is s ok c)
            (sym (built-first t is rest s ok) ∙ h))
      ∙ drops-first t is (record s { types = s'.types })
          (none_refers t.name s.tables s.tables c (ground (arith, ok)))
]
