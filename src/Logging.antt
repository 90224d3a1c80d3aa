-- ===== src/Logging.antt =====
-- app/core/logging.py: the JSON formatter, the set-up of the loggers, and the check of `Settings` that
-- runs before both. The text of a value, of an exception and of a moment is made elsewhere: a value of
-- the dict is kept as it is, `A` stands for them all.
pub mod Fields
pub mod Starting
use nexobank_backend.Base.{
  ℕ, String, Bool, true, false, Option, none, some, List, [], ◌∷◌, str_eq, length_text, ltb,
  if◌then◌else◌,
}
use nexobank_backend.Base.Dict.{Dict, get, set_key}
use nexobank_backend.Session.{Settings}
use nexobank_backend.Security.{is_production}

-- what the formatter reads of a `logging.LogRecord`; `attributes` is its `__dict__`
pub record LogRecord (A : Type 0) : Type 0 where
  pub levelname : A
  pub name : A
  pub message : A
  pub attributes : List (String × A)
  pub exc_info : Option A

-- `_standard_keys`
abbrev pub standard_keys : List String
standard_keys =
    "name" ∷ "msg" ∷ "args" ∷ "levelname" ∷ "levelno" ∷ "pathname" ∷ "filename" ∷ "module"
    ∷ "exc_info" ∷ "exc_text" ∷ "stack_info" ∷ "lineno" ∷ "funcName" ∷ "created" ∷ "msecs"
    ∷ "relativeCreated" ∷ "thread" ∷ "threadName" ∷ "processName" ∷ "process" ∷ "message"
    ∷ "taskName" ∷ []

-- `key in _standard_keys`
abbrev pub is_one_of : String → List String → Bool
is_one_of key [] = false
is_one_of key (k ∷ rest) = if str_eq k key then true else is_one_of key rest

-- the loop over `record.__dict__`
unfoldable pub add_extras : {A : Type 0} → List String → Dict A → Dict A → Dict A
add_extras standard [] log_object = log_object
add_extras standard ((key, value) ∷ rest) log_object =
    add_extras standard rest
      (if is_one_of key standard then log_object else set_key key value log_object)

abbrev pub add_exc_info : {A : Type 0} → Option A → Dict A → Dict A
add_exc_info none log_object = log_object
add_exc_info (some e) log_object = set_key "exc_info" e log_object

-- `_JsonFormatter.format`, up to `json.dumps`
unfoldable pub format : {A : Type 0} → A → LogRecord A → Dict A
format now r = add_exc_info r.exc_info (
    add_extras standard_keys r.attributes (
      ("timestamp", now)
      ∷ ("level", r.levelname)
      ∷ ("logger", r.name)
      ∷ ("message", r.message)
      ∷ []))

pub data Level : Type 0 where
  debug info warning : Level

pub data Formatter : Type 0 where
  json plain : Formatter

-- the handlers and the level of the root logger, and the levels that other loggers were given
pub record Loggers : Type 0 where
  pub handlers : List Formatter
  pub level : Level
  pub levels : Dict Level

-- `setup_logging`
unfoldable pub setup_logging : Settings → Loggers → Loggers
setup_logging settings l =
    if is_production settings
    then record {
      handlers = json ∷ [];
      level = info;
      levels = set_key "sqlalchemy.engine" warning (set_key "uvicorn.access" warning l.levels);
    }
    else record { handlers = plain ∷ []; level = debug; levels = l.levels }

-- `_validate_secret_key_length`; `none` where it raises
unfoldable pub validate_secret_key_length : Settings → Option Settings
validate_secret_key_length settings =
    if ltb (length_text settings.secret_key) 32 then none else some settings
