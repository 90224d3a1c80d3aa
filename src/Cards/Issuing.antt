-- ===== src/Cards/Issuing.antt =====
-- `create_card` and `get_account_cards`.
use mathlib.Core.List.{Perm, perm_append_singleton}
use mathlib.Core.List.Perm
use mathlib.Core.Path.{subst, sym}
use nexobank_backend.Base.{
  ℕ, ◌+◌, ◌≡◌, refl, Bool, true, false, some, List, [], ◌∷◌, ◌++◌, arith, ◌==◌, select_one,
  select_all, Option-cases, inl, inr,
}
use nexobank_backend.Models.{Account, AccountStatus, Card, CardStatus, CardType}
use nexobank_backend.Session.{Env, Session, ok}
use nexobank_backend.Repositories.Accounts
use nexobank_backend.Repositories.Cards
use nexobank_backend.Repositories.Cards.{has_id}
use nexobank_backend.Repositories.AuditLogs
use nexobank_backend.Cards.{create_card, get_account_cards, compute_expiry, is_frozen_or_closed}

select_all-snoc :
    {R : Type 0} (test : R → Bool) (t : List R) (r : R)
    → test r ≡ true
    → select_all test (t ++ r ∷ []) ≡ select_all test t ++ r ∷ []
select_all-snoc test [] r h = ground (arith, h)
select_all-snoc test (x ∷ t) r h = ground (arith, select_all-snoc test t r h)

only_active : (st : AccountStatus) → is_frozen_or_closed st ≡ false → st ≡ AccountStatus.active
only_active AccountStatus.active h = refl
only_active AccountStatus.frozen h = absurd (cc)
only_active AccountStatus.closed h = absurd (cc)

module _ (env : Env) (account_id user_id : ℕ) (type : CardType) (s : Session) (card : Card)
    (t : Session) where
  -- what the call has checked, and what it has added
  pub record Issued : Type 0 where
    pub account : Account
    pub found : select_one (Accounts.has_id account_id) s.db.accounts ≡ some account
    pub owned : account.user_id ≡ user_id
    pub usable : account.status ≡ AccountStatus.active
    pub of_account : card.account_id ≡ account_id
    pub of_type : card.type ≡ type
    pub is_new : card.status ≡ CardStatus.active
    pub expires : (n : ℕ) × (card.expires_at ≡ compute_expiry (env.today n))
    pub cards : t.db.cards ≡ s.db.cards ++ card ∷ []
    pub accounts : t.db.accounts ≡ s.db.accounts

  pub create_card-Issued : create_card env account_id user_id type s ≡ (ok card, t) → Issued
  unfolding create_card Accounts.get_by_id Cards.create Cards.flush_row AuditLogs.log
  create_card-Issued h =
      elim (Option-cases (select_one (Accounts.has_id account_id) s.db.accounts)) [
        | inl e ↦ absurd (ground (arith, e))
        | inr (account, e) ↦ record {
          account = account;
          found = e;
          owned = ground (arith, e);
          usable = only_active account.status (ground (arith, e));
          of_account = ground (arith, e);
          of_type = ground (arith, e);
          is_new = ground (arith, e);
          expires = (s.calls + 1, ground (arith, e));
          cards = ground (arith, e);
          accounts = ground (arith, e);
        }
      ]

-- A card that `create_card` returns is issued on an active account of the user who asks, is of the
-- type asked for, is active, and expires by `_compute_expiry` of a day that the calendar gave;
-- `get_account_cards` by the same user then returns the cards that it would have returned before and
-- the new one, in some order.
pub create_card_listed :
    (env : Env) (account_id user_id : ℕ) (type : CardType) (s : Session) (card : Card) (t : Session)
    → create_card env account_id user_id type s ≡ (ok card, t)
    → (account : Account) × (before after : List Card) × (select_one
          (Accounts.has_id account_id)
          s.db.accounts
        ≡ some account)
      × (account.user_id ≡ user_id)
      × (account.status ≡ AccountStatus.active)
      × (card.type ≡ type)
      × (card.status ≡ CardStatus.active)
      × ((n : ℕ) × (card.expires_at ≡ compute_expiry (env.today n)))
      × (get_account_cards env account_id user_id s ≡ (ok before, s))
      × (get_account_cards env account_id user_id t ≡ (ok after, t))
      × Perm after (card ∷ before)
unfolding get_account_cards Accounts.get_by_id Cards.get_by_account_id
create_card_listed env account_id user_id type s card t h =
    let r = create_card-Issued env account_id user_id type s card t h in
    (
      r.account,
      (listed s).0,
      (listed t).0,
      r.found,
      r.owned,
      r.usable,
      r.of_type,
      r.is_new,
      r.expires,
      ground (arith, r.found, r.owned),
      ground (arith, r.found, r.owned, r.accounts),
      Perm.trans (listed t).1 (
          subst (λ rows. Perm rows (card ∷ (listed s).0))
            (sym (
              ground (
                arith,
                r.cards,
                r.of_account,
                select_all-snoc (λ c. c.account_id == account_id) s.db.cards card,
              )))
            (Perm.trans (perm_append_singleton card (of_account s))
              (Perm.cons card (Perm.symm (listed s).1)))),
    )
  where
    of_account : Session → List Card
    of_account u = select_all (λ c. c.account_id == account_id) u.db.cards

    listed : (u : Session) → (out : List Card) × Perm out (of_account u)
    listed u = env.card_scan u.calls (of_account u)
