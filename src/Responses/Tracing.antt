-- ===== src/Responses/Tracing.antt =====
-- The request id in the header and in the envelope, and what a refused transfer leaves.
use mathlib.Core.Path.{subst, sym}
use nexobank_backend.Base.{
  ℕ, ◌+◌, ◌≡◌, ◌≢◌, refl, String, Option, none, some, arith, str_eq, eq_iff, Bool-cases, inl, inr,
  ◌⊎◌,
}
use nexobank_backend.Session.{Env, Db, DomainError, err, domain, Action, with_session}
use nexobank_backend.Responses.{
  get_request_id, text_or, nexobank_exception_handler, refused, ErrorResponse, inject_request_id,
}

envelope_id :
    (env : Env) (header : Option String) (calls : ℕ) (e : DomainError) (m : String)
    → (nexobank_exception_handler env header calls e m).content.request_id
      ≡ get_request_id env header calls
unfolding nexobank_exception_handler
envelope_id env header calls e m = ground arith

module _ {A : Type 0} (env : Env) (header : Option String) (message : DomainError → String)
    (status : ℕ) (route : Action A) (db : Db) (calls : ℕ) where
  -- the calls of the generators when the handler runs
  abbrev pub later : ℕ
  later = (with_session route db (calls + 1)).2

  -- the two request ids, with a header that is not empty and without
  abbrev pub Traced : String → String → Type 0
  Traced id in_body =
      ((given : String) × (header ≡ some given) × (given ≢ "") × (id ≡ given) × (in_body ≡ given))
      ⊎ ((text_or header "" ≡ "")
          × (id ≡ env.uuid_text (env.uuid4 calls))
          × (in_body ≡ env.uuid_text (env.uuid4 later)))

  traced :
      (h : Option String)
      → header ≡ h
      → Traced (get_request_id env header calls) (get_request_id env header later)
  unfolding get_request_id text_or
  traced none e = inr (ground (arith, e), ground (arith, e), ground (arith, e))
  traced (some given) e = elim (Bool-cases (str_eq given "")) [
    | inl empty ↦ inr (ground (arith, e, empty), ground (arith, e, empty), ground (arith, e, empty))
    | inr full ↦ inl (
      given,
      e,
      λ same. ground (arith, full, eq_iff given ""),
      ground (arith, e, full),
      ground (arith, e, full),
    )
  ]

  ids :
      (e : DomainError)
      → Traced
          (get_request_id env header calls)
          (nexobank_exception_handler env header later e (message e)).content.request_id
  ids e =
      subst (Traced (get_request_id env header calls))
        (sym (envelope_id env header later e (message e))) (traced header refl)

  -- A request whose route raises a domain error is answered with the envelope. Its request id is that
  -- of the response's header where the request had a header that is not empty; where it had none, the
  -- two are the texts of two UUIDs, drawn one before and one after the route.
  pub inject_request_id_traces :
      (e : DomainError)
      → (with_session route db (calls + 1)).0 ≡ err (domain e)
      → (response : ErrorResponse) × (id : String) × ((inject_request_id env header message status
            route db calls).0
          ≡ record { reply = refused response; request_id = some id })
        × Traced id response.content.request_id
  unfolding inject_request_id
  inject_request_id_traces e raised = (
    nexobank_exception_handler env header later e (message e),
    get_request_id env header calls,
    ground (arith, raised),
    ids e,
  )
