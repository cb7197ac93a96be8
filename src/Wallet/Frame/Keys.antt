-- ===== src/Wallet/Frame/Keys.antt =====
-- The commands of the wallets leave the idempotency keys alone.
use api_wallet.Prelude.{Text, ◌≡◌, refl, ◌∙◌, Option, none, some, List}
use api_wallet.Entities.{IdempotencyKey, Transfer, Wallet}
use api_wallet.Tables.{
  Db, Statement, connect, start, commit, rollback, select, insert_wallet_or_ignore, save_wallets,
  save_events, save_transfer, save_outbox, effect, find_wallet, insert_missing, write_transfer,
}
use api_wallet.Platform.{Platform}
use api_wallet.Wallet.Frame.{IsCommand}

module _ (p : Platform) (kept : List IdempotencyKey) where
  insert_missing-keys :
      (w : Wallet) (o : Option Wallet) (db : Db)
      → (insert_missing p.stored p.uuid w o db).keys ≡ db.keys
  insert_missing-keys w none db = refl
  insert_missing-keys w (some _) db = refl

  write_transfer-keys :
      (o : Option Text) (t : Transfer) (db : Db)
      → (write_transfer p.stored p.uuid o t db).keys ≡ db.keys
  write_transfer-keys none t db = refl
  write_transfer-keys (some _) t db = refl

  -- No statement of a command touches the idempotency keys.
  pub keys-closed :
      (s : Statement) (db : Db)
      → IsCommand s
      → db.keys ≡ kept
      → (effect p.stored p.uuid s db).keys ≡ kept
  unfolding effect
  keys-closed connect db c e = e
  keys-closed start db c e = e
  keys-closed commit db c e = e
  keys-closed rollback db c e = e
  keys-closed (select _ _) db c e = e
  keys-closed (insert_wallet_or_ignore w) db c e =
      insert_missing-keys w (find_wallet w.id db) db ∙ e
  keys-closed (save_wallets _) db c e = e
  keys-closed (save_events _) db c e = e
  keys-closed (save_transfer t) db c e = write_transfer-keys t.id t db ∙ e
  keys-closed (save_outbox _) db c e = e
  keys-closed _ db c e = absurd c
