-- ===== src/Logging/Starting.antt =====
-- The set-up of the loggers at the start of the application.
use nexobank_backend.Base.{◌≡◌, ◌∙◌, ap, arith, some, Bool-cases, inl, inr}
use nexobank_backend.Base.Dict.{Dict, get, set_key, get-set_key, set_key-present}
use nexobank_backend.Session.{Settings}
use nexobank_backend.Security.{is_production}
use nexobank_backend.Logging.{Level, warning, Loggers, setup_logging}

-- the levels in production
abbrev quiet : Dict Level → Dict Level
quiet d = set_key "sqlalchemy.engine" warning (set_key "uvicorn.access" warning d)

get_access-quiet : (d : Dict Level) → get "uvicorn.access" (quiet d) ≡ some warning
get_access-quiet d =
    get-set_key "sqlalchemy.engine" "uvicorn.access" warning (set_key "uvicorn.access" warning d)
    ∙ get-set_key "uvicorn.access" "uvicorn.access" warning d

get_engine-quiet : (d : Dict Level) → get "sqlalchemy.engine" (quiet d) ≡ some warning
get_engine-quiet d =
    get-set_key "sqlalchemy.engine" "sqlalchemy.engine" warning (set_key "uvicorn.access" warning d)

quiet-quiet : (d : Dict Level) → quiet (quiet d) ≡ quiet d
quiet-quiet d =
    ap (set_key "sqlalchemy.engine" warning)
      (set_key-present "uvicorn.access" warning (quiet d) (get_access-quiet d))
    ∙ set_key-present "sqlalchemy.engine" warning (quiet d) (get_engine-quiet d)

-- To set the loggers up a second time changes nothing, in production and elsewhere.
pub setup_logging_twice :
    (settings : Settings) (l : Loggers)
    → setup_logging settings (setup_logging settings l) ≡ setup_logging settings l
unfolding setup_logging
setup_logging_twice settings l = elim (Bool-cases (is_production settings)) [
  | inl e ↦ ground (arith, e, quiet-quiet l.levels)
  | inr e ↦ ground (arith, e)
]
