-- ===== src/Tables.antt =====
-- The database as its clients see it: the rows of each table, and what each statement of the
-- services does to them when it is carried out. Whether it is carried out is the platform's part.
pub mod Rows
use api_wallet.Prelude.{
  ℕ, suc, Text, codes, text_eq, Bool, false, or_else, Option, none, some, List, [], ◌∷◌, ◌++◌,
  if◌then◌else◌, ltb,
}
use api_wallet.Entities.{
  Wallet, WalletEvent, Transfer, OutboxMessage, OutboxStatus, IdempotencyKey, IdempotencyStatus,
  ResponseBody, ConsumedEvent, WalletAnalytics,
}
use Rows.{lookup_by, upsert_by, update_where, delete_where, opt_text_eq}

-- `issued` counts the generated keys, and `clock` is the server's time.
pub record Db : Type 0 where
  pub wallets : List Wallet
  pub events : List WalletEvent
  pub transfers : List Transfer
  pub outbox : List OutboxMessage
  pub keys : List IdempotencyKey
  pub consumed : List ConsumedEvent
  pub analytics : List WalletAnalytics
  pub issued : ℕ
  pub clock : ℕ

pub data Table : Type 0 where
  wallets events transfers outbox keys consumed analytics : Table

-- What a partial update of an outbox message sets.
pub record OutboxPatch : Type 0 where
  pub status : OutboxStatus
  pub published_at : Option (Option ℕ)
  pub next_attempt_at : Option ℕ
  pub last_error : Option Text

-- The statements that the services send; `locked` asks for a pessimistic lock.
pub data Statement : Type 0 where
  connect start commit rollback : Statement
  select : Table → (locked : Bool) → Statement
  insert_wallet_or_ignore : Wallet → Statement
  save_wallets : List Wallet → Statement
  save_events : List WalletEvent → Statement
  save_transfer : Transfer → Statement
  save_outbox : OutboxMessage → Statement
  save_messages : List OutboxMessage → Statement
  update_message : Option Text → OutboxPatch → Statement
  save_key : IdempotencyKey → Statement
  complete_key : (key : Text) (status : ℕ) → ResponseBody → Statement
  delete_keys : (cutoff : ℕ) → Statement
  save_consumed : ConsumedEvent → Statement
  save_analytics : WalletAnalytics → Statement

unfoldable pub find_wallet : Text → Db → Option Wallet
unfolding lookup_by
find_wallet id db = lookup_by (λ w. w.id) id db.wallets

-- `stored` is the text that a numeric(20,4) column gives back, `uuid` the generated keys.
module _ (stored : Text → Text) (uuid : ℕ → Text) where
  abbrev pub stored_wallet : Wallet → Wallet
  stored_wallet w = record w { balance = stored w.balance }

  abbrev pub stored_amount : Option Text → Option Text
  stored_amount none = none
  stored_amount (some t) = some (stored t)

  -- An entity without a key gets the next one, and the time of its row.
  abbrev pub number_event : ℕ → ℕ → WalletEvent → WalletEvent
  number_event now n e = record e { id = some (uuid n); created_at = some now }

  abbrev pub event_row : ℕ → ℕ → WalletEvent → WalletEvent
  event_row now n e = record e {
    id = some (uuid n);
    amount = stored_amount e.amount;
    created_at = some now;
  }

  abbrev pub event_rows : ℕ → ℕ → List WalletEvent → List WalletEvent
  event_rows now n [] = []
  event_rows now n (e ∷ es) = event_row now n e ∷ event_rows now (suc n) es

  abbrev pub after : ℕ → List WalletEvent → ℕ
  after n [] = n
  after n (_ ∷ es) = after (suc n) es

  abbrev pub insert_missing : Wallet → Option Wallet → Db → Db
  insert_missing w (some _) db = db
  insert_missing w none db = record db { wallets = db.wallets ++ stored_wallet w ∷ [] }

  abbrev pub save_all : List Wallet → List Wallet → List Wallet
  save_all [] rows = rows
  save_all (w ∷ ws) rows = save_all ws (upsert_by (λ r. r.id) (stored_wallet w) rows)

  abbrev pub write_transfer : Option Text → Transfer → Db → Db
  write_transfer none t db = record db {
    transfers =
        db.transfers ++ (record t { id = some (uuid db.issued); amount = stored t.amount }) ∷ [];
    issued = suc db.issued;
  }
  write_transfer (some id) t db = record db {
    transfers =
        update_where (λ r. opt_text_eq r.id (some id)) (λ r. record t { amount = stored t.amount })
          db.transfers;
  }

  abbrev pub patched : OutboxPatch → OutboxMessage → OutboxMessage
  patched p m = record m {
    status = p.status;
    published_at = elim p.published_at [ none ↦ m.published_at | some t ↦ t ];
    next_attempt_at = p.next_attempt_at;
    last_error = p.last_error;
  }

  -- A row of analytics takes the defaults of its columns where the entity has no value.
  abbrev pub stored_analytics : WalletAnalytics → WalletAnalytics
  stored_analytics a = record a {
    total_deposited = some (stored (or_else a.total_deposited (codes "0")));
    total_withdrawn = some (stored (or_else a.total_withdrawn (codes "0")));
    withdrawals_count = some (or_else a.withdrawals_count 0);
    deposits_count = some (or_else a.deposits_count 0);
    flagged_for_review = some (or_else a.flagged_for_review false);
  }

  abbrev pub rewrite_messages : List OutboxMessage → List OutboxMessage → List OutboxMessage
  rewrite_messages [] rows = rows
  rewrite_messages (m ∷ ms) rows =
      rewrite_messages ms (update_where (λ r. opt_text_eq r.id m.id) (λ r. m) rows)

  -- What a statement does if it is carried out.
  unfoldable pub effect : Statement → Db → Db
  unfolding find_wallet upsert_by update_where delete_where
  effect (insert_wallet_or_ignore w) db = insert_missing w (find_wallet w.id db) db
  effect (save_wallets ws) db = record db { wallets = save_all ws db.wallets }
  effect (save_events es) db = record db {
    events = db.events ++ event_rows db.clock db.issued es;
    issued = after db.issued es;
  }
  effect (save_transfer t) db = write_transfer t.id t db
  effect (save_outbox m) db = record db {
    outbox =
        db.outbox ++ (record m { id = some (uuid db.issued); created_at = some db.clock }) ∷ [];
    issued = suc db.issued;
  }
  effect (save_messages ms) db = record db { outbox = rewrite_messages ms db.outbox }
  effect (update_message id p) db = record db {
    outbox = update_where (λ r. opt_text_eq r.id id) (patched p) db.outbox;
  }
  effect (save_key k) db = record db {
    keys = upsert_by (λ r. r.id) (record k { updated_at = db.clock }) db.keys;
  }
  effect (complete_key key status body) db = record db {
    keys =
        update_where (λ r. text_eq r.id key)
          (λ r. record r {
            status = IdempotencyStatus.completed;
            response_status = some status;
            response_body = some body;
            locked_at = none;
            updated_at = db.clock;
          })
          db.keys;
  }
  effect (delete_keys cutoff) db = record db {
    keys = delete_where (λ r. ltb r.updated_at cutoff) db.keys;
  }
  effect (save_consumed c) db = record db { consumed = upsert_by (λ r. r.event_id) c db.consumed }
  effect (save_analytics a) db = record db {
    analytics = upsert_by (λ r. r.wallet_id) (stored_analytics a) db.analytics;
  }
  effect _ db = db
