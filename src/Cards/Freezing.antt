-- ===== src/Cards/Freezing.antt =====
-- `set_card_frozen`: whose cards it changes, and to what.
use mathlib.Core.Path.{ap, ◌∙◌}
use nexobank_backend.Models.{Host}
use nexobank_backend.Base.{
  ℕ, ==_iff, ◌≡◌, ◌≢◌, refl, Bool, true, Option, none, some, arith, select_one, update_where,
  select_one-update_where, select_one_holds, Option-cases, inl, inr, if◌then◌else◌, List, ◌⊎◌,
  Bool-cases,
}
use nexobank_backend.Models.{Account, Card, CardStatus}
use nexobank_backend.Session.{
  Env, Session, Error, ok, err, domain, card_not_found, unauthorized_resource,
}
use nexobank_backend.Repositories.Accounts
use nexobank_backend.Repositories.Cards
use nexobank_backend.Repositories.Cards.{has_id, set_status}
use nexobank_backend.Repositories.AuditLogs
use nexobank_backend.Cards.{set_card_frozen, is_not_owned}

-- the status that the call asks for
abbrev wanted : Bool → CardStatus
wanted frozen = if frozen then CardStatus.frozen else CardStatus.active

module _ (env : Env) (card_id : ℕ) (frozen : Bool) (user_id : ℕ) (ip : Option Host) (s : Session)
    (updated : Card) (t : Session) where
  pub record SetTo : Type 0 where
    pub card : Card
    pub account : Account
    pub found : select_one (has_id card_id) s.db.cards ≡ some card
    pub account_found : select_one (Accounts.has_id card.account_id) s.db.accounts ≡ some account
    pub owned : account.user_id ≡ user_id
    pub result : updated ≡ set_status (wanted frozen) card
    pub cards : t.db.cards ≡ update_where (has_id card.id) (set_status (wanted frozen)) s.db.cards

  set_card_frozen-SetTo : set_card_frozen env card_id frozen user_id ip s ≡ (ok updated, t) → SetTo
  unfolding set_card_frozen Cards.get_by_id Cards.update_status Accounts.get_by_id AuditLogs.log
  set_card_frozen-SetTo h = elim (Option-cases (select_one (has_id card_id) s.db.cards)) [
    | inl e ↦ absurd (ground (arith, e))
    | inr (card, e) ↦
        elim (Option-cases (select_one (Accounts.has_id card.account_id) s.db.accounts)) [
          | inl k ↦ absurd (ground (arith, e, k))
          | inr (account, k) ↦ record {
            card = card;
            account = account;
            found = e;
            account_found = k;
            owned = ground (arith, e, k);
            result = ground (arith, e, k);
            cards = ground (arith, e, k);
          }
        ]
  ]

-- An update that keeps the key of the rows is read back under the key.
select_one-set_status :
    (k : ℕ) (q : Card → Bool) (st : CardStatus) (cards : List Card)
    → select_one (has_id k) (update_where q (set_status st) cards)
      ≡ elim (select_one (has_id k) cards) [
        | none ↦ none
        | some c ↦ some (if q c then set_status st c else c)
      ]
select_one-set_status k q st cards =
    select_one-update_where (has_id k) q (set_status st) cards (λ c. refl)

other_kept :
    (k id : ℕ) (st : CardStatus) (cards : List Card)
    → k ≢ id
    → select_one (has_id k) (update_where (has_id id) (set_status st) cards)
      ≡ select_one (has_id k) cards
other_kept k id st cards other = elim (Option-cases (select_one (has_id k) cards)) [
  | inl e ↦ ground (arith, e, select_one-set_status k (has_id id) st cards)
  | inr (c, e) ↦ ground (
    arith,
    e,
    select_one-set_status k (has_id id) st cards,
    other,
    select_one_holds (has_id k) cards c e,
  )
]

-- A call of `set_card_frozen` that returns: the card is one of an account of the user who asks, what
-- comes back is that card with the status `frozen` or `active`, as asked and whatever its status was
-- (a cancelled card too), the table then has that under the card's id, and every other id reads as it
-- did.
pub set_card_frozen_sets :
    (env : Env) (card_id : ℕ) (frozen : Bool) (user_id : ℕ) (ip : Option Host) (s : Session)
    (updated : Card) (t : Session)
    → set_card_frozen env card_id frozen user_id ip s ≡ (ok updated, t)
    → (card : Card) × (account : Account) × (select_one (has_id card_id) s.db.cards ≡ some card)
      × (select_one (Accounts.has_id card.account_id) s.db.accounts ≡ some account)
      × (account.user_id ≡ user_id)
      × (updated ≡ set_status (if frozen then CardStatus.frozen else CardStatus.active) card)
      × (select_one (has_id card_id) t.db.cards ≡ some updated)
      × ((k : ℕ)
          → k ≢ card_id
          → select_one (has_id k) t.db.cards ≡ select_one (has_id k) s.db.cards)
set_card_frozen_sets env card_id frozen user_id ip s updated t h =
    let r = set_card_frozen-SetTo env card_id frozen user_id ip s updated t h in
    let same = select_one_holds (has_id card_id) s.db.cards r.card r.found in
    (
      r.card,
      r.account,
      r.found,
      r.account_found,
      r.owned,
      r.result,
      ap (select_one (has_id card_id)) r.cards
          ∙ select_one-set_status card_id (has_id r.card.id) (wanted frozen) s.db.cards
          ∙ ground (arith, r.found, r.result, same),
      λ k other.
          ap (select_one (has_id k)) r.cards
          ∙ other_kept k r.card.id (wanted frozen) s.db.cards
              (λ e. other (e ∙ (==_iff r.card.id card_id).0 same)),
    )

-- A call of `set_card_frozen` that raises leaves everything as it was: the card is missing and the
-- error is `CardNotFoundError`, or its account is missing or another user's and the error is
-- `UnauthorizedResourceError`.
pub set_card_frozen_refuses :
    (env : Env) (card_id : ℕ) (frozen : Bool) (user_id : ℕ) (ip : Option Host) (s : Session)
    (e : Error) (t : Session)
    → set_card_frozen env card_id frozen user_id ip s ≡ (err e, t)
    → (t ≡ s)
      × (((select_one (has_id card_id) s.db.cards ≡ none) × (e ≡ domain card_not_found))
          ⊎ ((card : Card) × (select_one (has_id card_id) s.db.cards ≡ some card)
              × (is_not_owned (select_one (Accounts.has_id card.account_id) s.db.accounts) user_id
                  ≡ true)
              × (e ≡ domain unauthorized_resource)))
unfolding set_card_frozen Cards.get_by_id Cards.update_status Accounts.get_by_id AuditLogs.log
set_card_frozen_refuses env card_id frozen user_id ip s e t h =
    elim (Option-cases (select_one (has_id card_id) s.db.cards)) [
      | inl k ↦ (ground (arith, k), inl (k, ground (arith, k)))
      | inr (card, k) ↦
          elim (Bool-cases
            (is_not_owned (select_one (Accounts.has_id card.account_id) s.db.accounts) user_id)) [
              | inl j ↦ (ground (arith, k, j), inr (card, k, j, ground (arith, k, j)))
              | inr j ↦ absurd (ground (arith, k, j))
            ]
    ]
