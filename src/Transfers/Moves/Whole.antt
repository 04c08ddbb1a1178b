-- ===== src/Transfers/Moves/Whole.antt =====
-- `_move_money` keeps the contract of `execute_once`.
use mathlib.Core.Path.{subst}
use chekin_interview.Base.{ℕ, ◌≡◌, refl, sym, ◌∙◌, inl, inr, List, [], ◌∷◌}
use chekin_interview.Models.{Account, IdempotencyKey, add_key, LeavesAccounts}
use chekin_interview.Schemas.{Codec, TransferRequest}
use chekin_interview.Database.{Engine, Ends}
use chekin_interview.Database.Exec.{◌>>=◌}
use chekin_interview.Database.Rules.{Ends-bind}
use chekin_interview.Idempotency.Contract.{Performs}
use chekin_interview.Transfers.{
  sorted, get_item, lock_accounts, or_key_error, move_between, move_money,
}
use chekin_interview.Transfers.Sorted.{Listed-sorted}
use chekin_interview.Transfers.Locks.{Locked, get_item-Locks, lock_each-Locks}
use chekin_interview.Transfers.Moves.{Moved}
use chekin_interview.Transfers.Moves.Between.{Worked, Stopped, move_between-Worked}

module _ (e : Engine) (c : Codec) where
  open e use {Session, ghost}

  module _ (req : TransferRequest) (claim : IdempotencyKey) (start : Session) where
    -- With both rows found the rest of the work runs on them.
    found-Worked :
        (l : List (ℕ × Account)) (s : Session)
        → ghost.pending start ≡ add_key claim ∷ []
        → Locked e c (sorted (req.from_account_id ∷ req.to_account_id ∷ [])) start l s
        → Ends (Worked e c req claim start) (Stopped e c req claim start) (
            (do
              source ← or_key_error e c (get_item req.from_account_id l)
              destination ← or_key_error e c (get_item req.to_account_id l)
              move_between e c claim req source destination)
              s)
    unfolding or_key_error
    found-Worked l s pending (w, same, locks) =
        let ids = req.from_account_id ∷ req.to_account_id ∷ [] in
        let (a, item_a, held_a, row_a) =
          get_item-Locks e c req.from_account_id (sorted ids) l s locks
            (Listed-sorted req.from_account_id ids (inl refl)) in
        let (b, item_b, held_b, row_b) =
          get_item-Locks e c req.to_account_id (sorted ids) l s locks
            (Listed-sorted req.to_account_id ids (inr (inl refl))) in
        rw (item_a, item_b)
          (move_between-Worked e c req claim start a b s (record {
            within = w;
            claimed = same ∙ pending;
            holds_source = (held_a, row_a);
            holds_destination = (held_b, row_b);
          }))

  -- The work of a transfer keeps the contract of `execute_once`.
  pub move_money-Performs :
      (req : TransferRequest) → Performs e (Moved e c req) (λ claim. move_money e c claim req)
  unfolding move_money lock_accounts
  move_money-Performs req claim s pending =
      let ids = req.from_account_id ∷ req.to_account_id ∷ [] in
      Ends-bind (λ l t. Locked e c (sorted ids) s l t) (Worked e c req claim s)
        (Stopped e c req claim s)
        (λ l. do
          source ← or_key_error e c (get_item req.from_account_id l)
          destination ← or_key_error e c (get_item req.to_account_id l)
          move_between e c claim req source destination)
        (lock_accounts e c ids s)
        (lock_each-Locks e c (sorted ids) s (subst LeavesAccounts (sym pending) tt))
        (λ l t k. found-Worked req claim s l t pending k)
