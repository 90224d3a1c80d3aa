-- ===== src/Transfers/Idempotency.antt =====
-- The idempotency key: replays, and the two ways in which the companion key `<key>_in` gets in the way.
use text.Mathlib.TextLemmas.{length-append}
use text.Mathlib.TextPositions.{eq_refl}
use nexobank_backend.Base.{
  ◌≡◌, ◌≢◌, ap, ◌∙◌, ◌+◌, ◌≤◌, String, false, some, none, arith, List, [], ◌∷◌, ◌++◌, select_one,
  select_one-append, Bool-cases, inl, inr, select_one-none_of_has_row, length_text, eq_iff, str_eq,
  IsUnique,
}
use nexobank_backend.Models.{Account, Transaction}
use nexobank_backend.Session.{Env, Session, ok, err, domain, account_not_found}
use nexobank_backend.Repositories.Accounts
use nexobank_backend.Repositories.Transactions
use nexobank_backend.Repositories.Transactions.{has_key, same_key, refusal}
use nexobank_backend.Ledger.Appending.{new_key}
use nexobank_backend.Transfers.{Transfer, Pair, companion, replay, execute_transfer}
use nexobank_backend.Transfers.Outcome.{applied, out_row, in_row}
use nexobank_backend.Transfers.Success.{Accepts, execute_transfer-ok}

length-companion : (key : String) → length_text (companion key) ≡ length_text key + 3
length-companion key = length-append key "_in"

different_lengths : (a b : String) → length_text a ≢ length_text b → str_eq a b ≡ false
different_lengths a b h = elim (Bool-cases (str_eq a b)) [
  | inl e ↦ absurd (h (ap length_text ((eq_iff a b).0 e)))
  | inr e ↦ e
]

module _ (env : Env) (p : Transfer) (source target : Account) (s : Session)
    (a : Accepts env p source target s) where
  abbrev rows_after : List Transaction
  rows_after = (applied env p source target s).db.transactions

  out_found : select_one (has_key p.idempotency_key) rows_after ≡ some (out_row env p s.calls)
  out_found = rw (
    select_one-append (has_key p.idempotency_key) (s.db.transactions ++ out_row env p s.calls ∷ [])
        (in_row env p s.calls ∷ []),
    select_one-append (has_key p.idempotency_key) s.db.transactions (out_row env p s.calls ∷ []),
    a.key_is_new,
    eq_refl p.idempotency_key,
  )

  in_found :
      select_one (has_key (companion p.idempotency_key)) rows_after ≡ some (in_row env p s.calls)
  in_found = rw (
    select_one-append (has_key (companion p.idempotency_key))
        (s.db.transactions ++ out_row env p s.calls ∷ []) (in_row env p s.calls ∷ []),
    select_one-none_of_has_row (has_key (companion p.idempotency_key))
        (s.db.transactions ++ out_row env p s.calls ∷ [])
        (new_key (s.db.transactions ++ out_row env p s.calls ∷ []) (in_row env p s.calls)
          a.room.in_fits),
    eq_refl (companion p.idempotency_key),
  )

  -- a key that is neither of the two is looked up among the old rows
  other_key :
      (key : String)
      → str_eq p.idempotency_key key ≡ false
      → str_eq (companion p.idempotency_key) key ≡ false
      → select_one (has_key key) s.db.transactions ≡ none
      → select_one (has_key key) rows_after ≡ none
  other_key key h1 h2 new = rw (
    select_one-append (has_key key) (s.db.transactions ++ out_row env p s.calls ∷ [])
        (in_row env p s.calls ∷ []),
    select_one-append (has_key key) s.db.transactions (out_row env p s.calls ∷ []),
    new,
    h1,
    h2,
  )

  applied_again :
      (q : Transfer)
      → q.idempotency_key ≡ p.idempotency_key
      → execute_transfer env q (applied env p source target s)
        ≡ (ok (out_row env p s.calls, in_row env p s.calls), applied env p source target s)
  unfolding execute_transfer replay Transactions.get_by_idempotency_key
  applied_again q e = rw e (ground (arith, out_found, in_found))

  companion_key_refused :
      (q : Transfer)
      → q.idempotency_key ≡ companion p.idempotency_key
      → select_one (has_key (companion q.idempotency_key)) s.db.transactions ≡ none
      → execute_transfer env q (applied env p source target s)
        ≡ (err (domain account_not_found), applied env p source target s)
  unfolding execute_transfer replay Transactions.get_by_idempotency_key
  companion_key_refused q e new =
      let absent : select_one (has_key (companion q.idempotency_key)) rows_after ≡ none =
        other_key (companion q.idempotency_key)
          (different_lengths _ _ (λ same. absurd (omega (arith, same, longer, longest))))
          (different_lengths _ _ (λ same. absurd (omega (arith, same, longest)))) new in
      ground (arith, in_found, e, absent)
    where
      longer : length_text (companion p.idempotency_key) ≡ length_text p.idempotency_key + 3
      longer = length-companion p.idempotency_key

      longest :
          length_text (companion q.idempotency_key) ≡ length_text (companion p.idempotency_key) + 3
      longest = length-companion q.idempotency_key ∙ ap (λ k. length_text k + 3) e

module _ (env : Env) (p : Transfer) (s : Session) (unique : IsUnique Accounts.same_id s.db.accounts)
    (new : select_one (has_key p.idempotency_key) s.db.transactions ≡ none) {pair : Pair}
    {t : Session} (returned : execute_transfer env p s ≡ (ok pair, t)) where
  -- Where the ids of the accounts are unique: after a transfer with a new key has returned, every
  -- call with the same key, by whatever user and with whatever other arguments, returns the same
  -- two rows and changes nothing.
  pub execute_transfer_replays :
      (q : Transfer)
      → q.idempotency_key ≡ p.idempotency_key
      → execute_transfer env q t ≡ (ok pair, t)
  execute_transfer_replays q e =
      let (source, target, a, same_pair, same) = execute_transfer-ok env p s unique new returned in
      rw (same_pair, same) (applied_again env p source target s a q e)

  -- Where the ids of the accounts are unique: after a transfer with a new key `k` has returned, a
  -- call with the key `k_in` is refused as a partial transfer and changes nothing, if no row had
  -- the key `k_in_in` before.
  pub execute_transfer-companion_key :
      (q : Transfer)
      → q.idempotency_key ≡ companion p.idempotency_key
      → select_one (has_key (companion q.idempotency_key)) s.db.transactions ≡ none
      → execute_transfer env q t ≡ (err (domain account_not_found), t)
  execute_transfer-companion_key q e absent =
      let (source, target, a, same_pair, same) = execute_transfer-ok env p s unique new returned in
      rw same (companion_key_refused env p source target s a q e absent)

  -- Where the ids of the accounts are unique, a transfer with a new key that returns has a key of
  -- at most 61 characters.
  pub execute_transfer_key_length : length_text p.idempotency_key ≤ 61
  unfolding refusal
  execute_transfer_key_length =
      let (source, target, a, same_pair, same) = execute_transfer-ok env p s unique new returned in
      ground (arith, a.room.in_fits, length-companion p.idempotency_key)
