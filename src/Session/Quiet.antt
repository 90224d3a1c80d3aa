-- ===== src/Session/Quiet.antt =====
-- Actions that do not commit: what a rollback goes back to stays what it was, whatever they raise.
use nexobank_backend.Base.{◌≡◌}
use nexobank_backend.Session.{Session, Action}

abbrev pub Quiet : {A : Type 0} → Action A → Type 0
Quiet m = (s : Session) → (m s).1.committed ≡ s.committed
