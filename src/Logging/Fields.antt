-- ===== src/Logging/Fields.antt =====
-- Which fields a line of the log has.
use nexobank_backend.Base.{
  String, true, false, Option, none, some, List, [], ◌∷◌, str_eq, ◌≡◌, refl, ◌∙◌, sym, ap, arith,
  eq_iff, Bool-cases, inl, inr, if◌then◌else◌,
}
use nexobank_backend.Base.Dict.{Dict, get, set_key, get-set_key}
use nexobank_backend.Logging.{LogRecord, standard_keys, is_one_of, add_extras, add_exc_info, format}

-- The last value of a key in the list, and the default where it has none.
abbrev pub latest : {A : Type 0} → String → Dict A → Option A → Option A
latest key [] default = default
latest key ((k, v) ∷ rest) default = latest key rest (if str_eq k key then some v else default)

is_one_of-same :
    (k key : String) (keys : List String)
    → str_eq k key ≡ true
    → is_one_of k keys ≡ is_one_of key keys
is_one_of-same k key keys h = ground (arith, eq_iff k key)

get-add_extras :
    {A : Type 0} (keys : List String) (key : String) (extras log_object : Dict A)
    → get key (add_extras keys extras log_object)
      ≡ (if is_one_of key keys then get key log_object else latest key extras (get key log_object))
unfolding add_extras
get-add_extras keys key [] log_object = ground arith
get-add_extras keys key ((k, v) ∷ rest) log_object = elim (Bool-cases (is_one_of k keys)) [
  | inl e ↦ ground (arith, e, is_one_of-same k key keys, get-add_extras keys key rest log_object)
  | inr e ↦ ground (
    arith,
    e,
    is_one_of-same k key keys,
    get-set_key k key v log_object,
    get-add_extras keys key rest (set_key k v log_object),
  )
]

-- The field that the formatter itself gives to a name.
abbrev pub own_field : {A : Type 0} → String → A → LogRecord A → Option A
own_field key now r =
    if str_eq "timestamp" key
    then some now
    else if str_eq "level" key
    then some r.levelname
    else if str_eq "logger" key
    then some r.name
    else if str_eq "message" key
    then some r.message
    else none

get-own_fields :
    {A : Type 0} (keys : List String) (key : String) (now : A) (r : LogRecord A)
    → get key (
        add_extras keys r.attributes (
          ("timestamp", now)
          ∷ ("level", r.levelname)
          ∷ ("logger", r.name)
          ∷ ("message", r.message)
          ∷ []))
      ≡ (if is_one_of key keys
          then own_field key now r
          else latest key r.attributes (own_field key now r))
get-own_fields keys key now r =
    get-add_extras keys key r.attributes (
      ("timestamp", now)
      ∷ ("level", r.levelname)
      ∷ ("logger", r.name)
      ∷ ("message", r.message)
      ∷ [])

-- The first, where it has a value.
abbrev latest_of : {A : Type 0} → Option A → Option A → Option A
latest_of none d = d
latest_of (some e) d = some e

get-add_exc_info :
    {A : Type 0} (key : String) (e : Option A) (d : Dict A)
    → get key (add_exc_info e d)
      ≡ (if str_eq "exc_info" key then latest_of e (get key d) else get key d)
get-add_exc_info key none d = ground arith
get-add_exc_info key (some e) d = get-set_key "exc_info" key e d

-- What a line has under a name, for any list of standard keys.
abbrev pub line_field : {A : Type 0} → List String → String → A → LogRecord A → Option A
line_field keys key now r =
    if str_eq "exc_info" key
    then r.exc_info
    else if is_one_of key keys
    then (if str_eq "message" key then some r.message else none)
    else latest key r.attributes (own_field key now r)

own_field-standard :
    {A : Type 0} (keys : List String) (key : String) (now : A) (r : LogRecord A)
    → is_one_of "timestamp" keys ≡ false
    → is_one_of "level" keys ≡ false
    → is_one_of "logger" keys ≡ false
    → is_one_of key keys ≡ true
    → own_field key now r ≡ (if str_eq "message" key then some r.message else none)
own_field-standard keys key now r t l g h = ground (
  arith,
  t,
  l,
  g,
  h,
  is_one_of-same "timestamp" key keys,
  is_one_of-same "level" key keys,
  is_one_of-same "logger" key keys,
)

exc_info-not_message : (key : String) → str_eq "exc_info" key ≡ true → str_eq "message" key ≡ false
exc_info-not_message key h = sym (ap (str_eq "message") ((eq_iff "exc_info" key).0 h))

get-line :
    {A : Type 0} (keys : List String) (key : String) (now : A) (r : LogRecord A)
    → is_one_of "timestamp" keys ≡ false
    → is_one_of "level" keys ≡ false
    → is_one_of "logger" keys ≡ false
    → is_one_of "exc_info" keys ≡ true
    → get key (
        add_exc_info r.exc_info (
          add_extras keys r.attributes (
            ("timestamp", now)
            ∷ ("level", r.levelname)
            ∷ ("logger", r.name)
            ∷ ("message", r.message)
            ∷ [])))
      ≡ line_field keys key now r
get-line keys key now r t l g x =
    get-add_exc_info key r.exc_info _ ∙ elim (Bool-cases (str_eq "exc_info" key)) [
      | inl e ↦ ground (
        arith,
        e,
        x,
        is_one_of-same "exc_info" key keys,
        exc_info-not_message key,
        own_field-standard keys key now r t l g,
        get-own_fields keys key now r,
      )
      | inr e ↦
          ground (arith, e, own_field-standard keys key now r t l g, get-own_fields keys key now r)
    ]

-- A line of the log: every attribute that a caller adds under a name of its own is there with its
-- value, also where it has the name of a field of the formatter; none of the names that a record has
-- by itself is there but "message" and, where the record has an exception, "exc_info".
pub get-format :
    {A : Type 0} (key : String) (now : A) (r : LogRecord A)
    → get key (format now r) ≡ line_field standard_keys key now r
unfolding format
get-format key now r = get-line standard_keys key now r refl refl refl refl
