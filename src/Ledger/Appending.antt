-- ===== src/Ledger/Appending.antt =====
-- A transaction row that the table does not refuse keeps the ids and the keys unique.
use nexobank_backend.Base.{
  ◌≡◌, refl, String, false, Option, none, some, List, [], ◌∷◌, ◌++◌, arith, str_eq, eq_iff, has_row,
  IsUnique, IsUnique-append,
}
use nexobank_backend.Models.{Transaction}
use nexobank_backend.Repositories.Transactions.{same_id, same_key, same_key_text, refusal}

str_eq_comm : (a b : String) → str_eq a b ≡ str_eq b a
str_eq_comm a b = ground (arith, eq_iff a b, eq_iff b a)

same_key_text_comm : (a b : Option String) → same_key_text a b ≡ same_key_text b a
same_key_text_comm none none = refl
same_key_text_comm none (some b) = refl
same_key_text_comm (some a) none = refl
same_key_text_comm (some a) (some b) = str_eq_comm b a

module _ (rows : List Transaction) (tx : Transaction) (accepted : refusal rows tx ≡ none) where
  pub new_id : has_row (same_id tx) rows ≡ false
  unfolding refusal
  new_id = ground arith

  pub new_key : has_row (same_key tx) rows ≡ false
  unfolding refusal
  new_key = ground arith

  pub append_new-ids : IsUnique same_id rows → IsUnique same_id (rows ++ tx ∷ [])
  append_new-ids u = IsUnique-append same_id rows tx (λ x. ground arith) u new_id

  pub append_new-keys : IsUnique same_key rows → IsUnique same_key (rows ++ tx ∷ [])
  append_new-keys u =
      IsUnique-append same_key rows tx
        (λ x. same_key_text_comm x.idempotency_key tx.idempotency_key) u new_key
