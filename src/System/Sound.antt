-- ===== src/System/Sound.antt =====
-- What holds of the database all the time, and which statements keep it.
use api_wallet.Prelude.{
  ℕ, suc, ◌<◌, ◌≤◌, ◌==◌, Text, ◌≡◌, refl, sym, ◌∙◌, ap, Option, none, some, List, [], ◌∷◌, map,
  All, All-append, arith, if◌then◌else◌,
}
use api_wallet.Entities.{OutboxMessage, Transfer, Wallet, WalletEvent}
use api_wallet.Tables.{
  Db, Statement, connect, start, commit, rollback, select, insert_wallet_or_ignore, save_wallets,
  save_events, save_transfer, save_outbox, save_key, complete_key, delete_keys, save_consumed,
  save_analytics, effect, find_wallet, insert_missing, write_transfer, after,
}
use api_wallet.Platform.{Platform}
use api_wallet.Wallet.Books.{Ledger, Entry, IsBooked, Books}
use api_wallet.Wallet.Frame.{IsCommand}
use api_wallet.OutboxPublisher.Cycle.{IsSettled, AllSettled}
use api_wallet.System.Sides.{IsSide}

-- The number of a message, under which it was issued, tells which event it announces.
abbrev pub IsNumbered : Platform → ℕ → (ℕ → Option Text) → OutboxMessage → Type 0
IsNumbered p issued content m =
    (k : ℕ) × (m.id ≡ some (p.uuid k)) × (k < issued) × (m.payload.event_id ≡ content k)

abbrev pub Numbered : Platform → Db → Type 0
Numbered p db = (content : ℕ → Option Text) × All (IsNumbered p db.issued content) db.outbox

-- The balances, the log, the outbox and the transfers agree for this ledger; the messages are
-- numbered; and each message is settled.
abbrev pub IsSoundAt : Platform → Ledger → Db → Type 0
IsSoundAt p ledger db = Books p db ledger × Numbered p db × AllSettled db

-- They agree for some ledger.
abbrev pub IsSound : Platform → Db → Type 0
IsSound p db = ((ledger : Ledger) × Books p db ledger) × Numbered p db × AllSettled db

pub IsNumbered-All :
    (p : Platform) (issued issued' : ℕ) (content content' : ℕ → Option Text)
    (ms : List OutboxMessage)
    → issued ≤ issued'
    → ((k : ℕ) → k < issued → content' k ≡ content k)
    → All (IsNumbered p issued content) ms
    → All (IsNumbered p issued' content') ms
IsNumbered-All p issued issued' content content' [] le same h = tt
IsNumbered-All p issued issued' content content' (m ∷ ms) le same ((k, id, lt, e), h) = (
  (k, id, omega arith, e ∙ sym (same k lt)),
  IsNumbered-All p issued issued' content content' ms le same h,
)

after_le : (p : Platform) (n : ℕ) (es : List WalletEvent) → n ≤ after p.stored p.uuid n es
after_le p n [] = omega arith
after_le p n (e ∷ es) = omega (arith, after_le p (suc n) es)

module _ (p : Platform) where
  abbrev pub Kept : Db → Type 0
  Kept db = Numbered p db × AllSettled db

  insert_missing-Kept :
      (w : Wallet) (o : Option Wallet) (db : Db)
      → Kept db
      → Kept (insert_missing p.stored p.uuid w o db)
  insert_missing-Kept w none db h = h
  insert_missing-Kept w (some _) db h = h

  grown-Kept :
      (issued : ℕ) (db d : Db)
      → db.issued ≤ issued
      → Kept db
      → Numbered p (record d { outbox = db.outbox; issued = issued }) × All IsSettled db.outbox
  grown-Kept issued db d le ((content, h), settled) = (
    (content, IsNumbered-All p db.issued issued content content db.outbox le (λ _ _. refl) h),
    settled,
  )

  write_transfer-Kept :
      (o : Option Text) (t : Transfer) (db : Db)
      → Kept db
      → Kept (write_transfer p.stored p.uuid o t db)
  write_transfer-Kept none t db h = grown-Kept (suc db.issued) db db (omega arith) h
  write_transfer-Kept (some _) t db h = h

  -- A command's statements keep the messages numbered and settled.
  pub command-Kept :
      (s : Statement) (db : Db) → IsCommand s → Kept db → Kept (effect p.stored p.uuid s db)
  unfolding effect
  command-Kept connect db c h = h
  command-Kept start db c h = h
  command-Kept commit db c h = h
  command-Kept rollback db c h = h
  command-Kept (select _ _) db c h = h
  command-Kept (insert_wallet_or_ignore w) db c h = insert_missing-Kept w (find_wallet w.id db) db h
  command-Kept (save_wallets _) db c h = h
  command-Kept (save_events es) db c h =
      grown-Kept (after p.stored p.uuid db.issued es) db db (after_le p db.issued es) h
  command-Kept (save_transfer t) db c h = write_transfer-Kept t.id t db h
  command-Kept (save_outbox m) db c ((content, h), settled) =
      let content' : (ℕ → Option Text) =
        λ k. if k == db.issued then m.payload.event_id else content k in
      (
        (
          content',
          All-append (IsNumbered p (suc db.issued) content') db.outbox (_ ∷ [])
              (IsNumbered-All p db.issued (suc db.issued) content content' db.outbox (omega arith)
                (λ k lt. ground arith) h)
              ((db.issued, refl, omega arith, ground arith), tt),
        ),
        All-append IsSettled db.outbox (_ ∷ []) settled ((λ e. cc (e, c), λ e. cc (e, c)), tt),
      )
  command-Kept _ db c h = absurd c

  -- The books stand on four tables.
  pub rebooked :
      (db d : Db) (ledger : Ledger) (journal : List Entry)
      → d.wallets ≡ db.wallets
      → d.events ≡ db.events
      → map (λ m. m.payload.event_id) d.outbox ≡ map (λ m. m.payload.event_id) db.outbox
      → d.transfers ≡ db.transfers
      → IsBooked p db ledger journal
      → IsBooked p d ledger journal
  unfolding find_wallet
  rebooked db d ledger journal w e o t h = record {
    balances = λ id. rw w (h.balances id);
    audited = record {
      logged = h.audited.logged ∙ sym e;
      denoted = h.audited.denoted;
      mirrored = o ∙ (h.audited.mirrored ∙ ap (map (λ x. x.id)) (sym e));
    };
    replayed = h.replayed;
    undebited = rw t h.undebited;
  }

  -- What touches none of these tables keeps the database sound.
  pub side-IsSoundAt :
      (ledger : Ledger) (s : Statement) (db : Db)
      → IsSide s
      → IsSoundAt p ledger db
      → IsSoundAt p ledger (effect p.stored p.uuid s db)
  unfolding effect
  side-IsSoundAt l connect db c h = h
  side-IsSoundAt l start db c h = h
  side-IsSoundAt l commit db c h = h
  side-IsSoundAt l rollback db c h = h
  side-IsSoundAt l (select _ _) db c h = h
  side-IsSoundAt l (save_key _) db c ((j, b), n, k) =
      ((j, rebooked db _ l j refl refl refl refl b), n, k)
  side-IsSoundAt l (complete_key _ _ _) db c ((j, b), n, k) =
      ((j, rebooked db _ l j refl refl refl refl b), n, k)
  side-IsSoundAt l (delete_keys _) db c ((j, b), n, k) =
      ((j, rebooked db _ l j refl refl refl refl b), n, k)
  side-IsSoundAt l (save_consumed _) db c ((j, b), n, k) =
      ((j, rebooked db _ l j refl refl refl refl b), n, k)
  side-IsSoundAt l (save_analytics _) db c ((j, b), n, k) =
      ((j, rebooked db _ l j refl refl refl refl b), n, k)
  side-IsSoundAt l _ db c h = absurd c
