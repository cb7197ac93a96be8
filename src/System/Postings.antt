-- ===== src/System/Postings.antt =====
-- What the requests of WalletController (src/modules/wallet/wallet.controller.ts) may do to a ledger:
-- the specification of the commands, without database, events, messages and keys.
use api_wallet.Prelude.{ℕ, ◌+◌, ◌-◌, ◌≤◌, ◌<◌, Text, text_eq, ◌≡◌, ◌⊎◌, false, List, [], ◌∷◌}
use api_wallet.Entities.{
  TransferStatus, credited, WalletCommandResult, TransferCommandResult, ResponseBody, of_command,
  of_transfer,
}
use api_wallet.Platform.{Platform, Denotes}
use api_wallet.Wallet.{ok, normalize_amount}
use api_wallet.Wallet.Books.{Ledger, set}
use api_wallet.Controller.{Call, deposit_call, withdraw_call, transfer_call}

module _ (p : Platform) where
  -- The amount that a request gives.
  abbrev pub Asks : Text → ℕ → Type 0
  Asks amount n = normalize_amount p amount ≡ ok (p.money n)

  -- A transfer is credited or fails, and its status tells which.
  abbrev pub Settles : (from to amount : Text) → TransferCommandResult → Ledger → Ledger → Type 0
  Settles from to amount r l l' =
      ((r.transfer_status ≡ credited)
        × ((n : ℕ) × Asks amount n
            × (0 < n)
            × (n ≤ l from)
            × (l' ≡ set (set l from (l from - n)) to (l to + n))
            × Denotes p r.command.balance (l from - n)))
      ⊎ ((r.transfer_status ≡ TransferStatus.failed) × (l' ≡ l) × (r.command.events ≡ []))

  -- The request leads from one ledger to the other and is answered with this body.
  abbrev pub Posts : Call → ResponseBody → Ledger → Ledger → Type 0
  Posts (deposit_call id dto) body l l' =
      (r : WalletCommandResult) × (n : ℕ) × (body ≡ of_command r)
      × Asks dto.amount n
      × (l' ≡ set l id (l id + n))
      × Denotes p r.balance (l id + n)
  Posts (withdraw_call id dto) body l l' =
      (r : WalletCommandResult) × (n : ℕ) × (body ≡ of_command r)
      × Asks dto.amount n
      × (n ≤ l id)
      × (l' ≡ set l id (l id - n))
      × Denotes p r.balance (l id - n)
  Posts (transfer_call id dto) body l l' =
      (r : TransferCommandResult) × (body ≡ of_transfer r)
      × (text_eq id dto.to_wallet_id ≡ false)
      × Settles id dto.to_wallet_id dto.command.amount r l l'

  -- The ledger to which these requests lead, the last one first, from one that has nothing.
  pub data Posted : List Call → Ledger → Type 0 where
    nothing : Posted [] (λ _. 0)
    post :
        {calls : List Call} {l l' : Ledger} (call : Call) (body : ResponseBody)
        → Posted calls l
        → Posts call body l l'
        → Posted (call ∷ calls) l'

-- A list with some of its calls left out.
pub data IsAmong : List Call → List Call → Type 0 where
  none_left : IsAmong [] []
  keep : {xs ys : List Call} (call : Call) → IsAmong xs ys → IsAmong (call ∷ xs) (call ∷ ys)
  leave_out : {xs ys : List Call} (call : Call) → IsAmong xs ys → IsAmong xs (call ∷ ys)
