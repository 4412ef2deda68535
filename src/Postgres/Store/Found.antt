-- ===== src/Postgres/Store/Found.antt =====
-- crates/storage-postgres/src/{store,convert}.rs: what is found after a commit.
use iron_ledger.Domain.Amount.{AtomicAmount, checked_add, is_negative}
use iron_ledger.Domain.Event.{LedgerEvent}
use iron_ledger.Domain.Ids.{Timestamp, TransactionId, Uuid, new_idempotency_key}
use iron_ledger.Domain.Journal.{JournalEntry, Posting, posted}
use iron_ledger.Domain.Journal.Sums.{key_of, key_order}
use iron_ledger.Ledger.Port.{JournalCommit, committed}
use iron_ledger.Ledger.Store.{record_key, record_order}
use iron_ledger.Postgres.Convert.{
  AccountRow, EntryRow, PostingRow, entry_from_row, entry_row, entry_status_from_str, posting_row,
}
use iron_ledger.Postgres.Convert.Columns.{IsStorable, load_postings-posting_row}
use iron_ledger.Postgres.Store.{
  Driver, Tables, apply_posting_tx, apply_postings_tx, commit_tx, current_amount, find_entry_row,
  insert_entry, insert_key, insert_outbox, queue, read_entry, record_row, run_commit,
  update_balance,
}
use iron_ledger.Prelude.{
  All, Bool-cases, List, Option, Option-cases, [], any, arith, false, filter, inl, inr, map, none,
  refl, some, sym, ◌&&◌, ◌++◌, ◌==◌, ◌∙◌, ◌∷◌, ◌≡◌,
}
use iron_ledger.Prelude.Map.{get, get-insert, insert}
use iron_ledger.Prelude.Order.{equals, equals_refl, nat_order, text_order}
use iron_ledger.Prelude.Result.{Result-cases, WhenOk, ok, ok_injective}
use iron_ledger.Prelude.Text.{codes}

-- What changes the journal by these rows of postings alone.
abbrev Adds : List PostingRow → Tables → Tables → Type 0
Adds rows t u = (u.postings ≡ t.postings ++ rows) × (u.journal_entries ≡ t.journal_entries)

update_balance-Adds :
    (driver : Driver) (now : Timestamp) (entry_id : Uuid) (p : Posting) (row : AccountRow)
    (current : AtomicAmount) (t : Tables)
    → WhenOk
        (Adds (posting_row entry_id p ∷ []) t)
        (update_balance driver now entry_id p row current t)
unfolding update_balance
update_balance-Adds driver now entry_id p row current t =
    elim (Result-cases (checked_add current p.amount)) [
      | inr (e, bad) ↦ rw bad tt
      | inl (updated, good) ↦
          elim (Bool-cases
            (is_negative updated && equals text_order row.policy (codes "non_negative"))) [
              | inl negative ↦ rw (good, negative) tt
              | inr fine ↦ rw (good, fine) (refl, refl)
            ]
    ]

apply_posting_tx-Adds :
    (driver : Driver) (now : Timestamp) (entry_id : Uuid) (p : Posting) (t u : Tables)
    → apply_posting_tx driver now entry_id p t ≡ ok u
    → Adds (posting_row entry_id p ∷ []) t u
unfolding apply_posting_tx
apply_posting_tx-Adds driver now entry_id p t u good =
    elim (Option-cases (get nat_order p.account_id t.accounts)) [
      | inl absent ↦ absurd (ground arith)
      | inr (row, present) ↦ elim (Bool-cases (equals text_order row.status (codes "active"))) [
        | inr stopped ↦ absurd (ground arith)
        | inl running ↦ elim (Result-cases (current_amount (get key_order (key_of p) t.balances))) [
          | inr (e, bad) ↦ absurd (ground arith)
          | inl (current, read) ↦
              let updated : update_balance driver now entry_id p row current t ≡ ok u =
                ground arith in
              rw updated at (update_balance-Adds driver now entry_id p row current t)
        ]
      ]
    ]

append_nil : (rows : List PostingRow) → rows ++ [] ≡ rows
append_nil [] = refl
append_nil (row ∷ rows) = let ih = append_nil rows in ground arith

append_one :
    (rows more : List PostingRow) (row : PostingRow)
    → (rows ++ row ∷ []) ++ more ≡ rows ++ row ∷ more
append_one [] more row = refl
append_one (first ∷ rows) more row = let ih = append_one rows more row in ground arith

apply_postings_tx-Adds :
    (driver : Driver) (now : Timestamp) (entry_id : Uuid) (ps : List Posting) (t u : Tables)
    → apply_postings_tx driver now entry_id ps t ≡ ok u
    → Adds (map (posting_row entry_id) ps) t u
unfolding apply_postings_tx
apply_postings_tx-Adds driver now entry_id [] t u good =
    let same_tables = ok_injective good in rw (sym same_tables) (sym (append_nil t.postings), refl)
apply_postings_tx-Adds driver now entry_id (p ∷ ps) t u good =
    elim (Result-cases (apply_posting_tx driver now entry_id p t)) [
      | inr (e, bad) ↦ absurd (ground arith)
      | inl (v, first) ↦
          let (row, before) = apply_posting_tx-Adds driver now entry_id p t v first in
          let (rows, after_rows) =
            apply_postings_tx-Adds driver now entry_id ps v u (ground arith) in
          (
            rows
                ∙ rw row (
                    append_one t.postings (map (posting_row entry_id) ps) (posting_row entry_id p)),
            after_rows ∙ before,
          )
    ]

insert_outbox_keeps :
    (driver : Driver) (events : List LedgerEvent) (t u : Tables)
    → insert_outbox driver events t ≡ ok u
    → (u.postings ≡ t.postings) × (u.journal_entries ≡ t.journal_entries)
unfolding insert_outbox
insert_outbox_keeps driver [] t u good =
    let same_tables = ok_injective good in rw (sym same_tables) (refl, refl)
insert_outbox_keeps driver (event ∷ events) t u good = elim (Result-cases (driver.to_value event)) [
  | inr (e, bad) ↦ absurd (ground arith)
  | inl (payload, written) ↦
      insert_outbox_keeps driver events (queue driver payload event t) u (ground arith)
]

-- An entry whose columns are read back.
pub record IsStorableEntry (entry : JournalEntry) : Type 0 where
  pub postings : All IsStorable entry.postings
  pub key : new_idempotency_key entry.idempotency_key ≡ ok entry.idempotency_key

-- What the tables hold of an entry: it is posted, and its instant is as the column keeps it.
abbrev pub stored_entry : Driver → JournalEntry → JournalEntry
stored_entry driver entry = record entry {
  status = posted;
  created_at = driver.kept entry.created_at;
}

entry_from_row-entry_row :
    (driver : Driver) (entry : JournalEntry) (rows : List PostingRow)
    → IsStorableEntry entry
    → any (λ row. row.entry_id == entry.id) rows ≡ false
    → entry_from_row entry.id
        (entry_row driver.kept entry)
        (rows ++ map (posting_row entry.id) entry.postings)
      ≡ ok (stored_entry driver entry)
unfolding entry_from_row entry_status_from_str
entry_from_row-entry_row driver entry rows storable fresh =
    rw
      (load_postings-posting_row entry.id rows entry.postings fresh storable.postings, storable.key)
      refl

apart_rows :
    (id wanted : Uuid) (rows : List PostingRow) (ps : List Posting)
    → id == wanted ≡ false
    → filter (λ row. row.entry_id == wanted) (rows ++ map (posting_row id) ps)
      ≡ filter (λ row. row.entry_id == wanted) rows
apart_rows id wanted [] [] apart = refl
apart_rows id wanted [] (p ∷ ps) apart = let ih = apart_rows id wanted [] ps apart in ground arith
apart_rows id wanted (row ∷ rows) ps apart =
    let ih = apart_rows id wanted rows ps apart in ground arith

-- What a transaction leaves of the journal, if it commits.
commit_tx_tables :
    (driver : Driver) (now : Timestamp) (commit : JournalCommit) (t u : Tables)
    → get nat_order commit.entry.id t.journal_entries ≡ none
    → commit_tx driver now commit t ≡ (ok committed, u)
    → (u.postings ≡ t.postings ++ map (posting_row commit.entry.id) commit.entry.postings)
      × (u.journal_entries
          ≡ insert nat_order commit.entry.id (entry_row driver.kept commit.entry) t.journal_entries)
unfolding commit_tx run_commit insert_entry insert_key
commit_tx_tables driver now commit t u unused done =
    let entry = commit.entry in
    let filed = record t {
      idempotency_keys =
          insert record_order (record_key commit.idempotency) (record_row driver commit.idempotency)
            t.idempotency_keys;
      journal_entries = insert nat_order entry.id (entry_row driver.kept entry) t.journal_entries;
    } in
    elim (Option-cases (get record_order (record_key commit.idempotency) t.idempotency_keys)) [
      | inr (r, present) ↦ absurd (ground arith)
      | inl absent ↦
          elim (Result-cases (apply_postings_tx driver now entry.id entry.postings filed)) [
            | inr (e, bad) ↦ absurd (ground arith)
            | inl (v, applied_all) ↦ elim (Result-cases (insert_outbox driver commit.events v)) [
              | inr (e, bad) ↦ absurd (ground arith)
              | inl (x, queued_all) ↦
                  let (rows, entries) =
                    apply_postings_tx-Adds driver now entry.id entry.postings filed v applied_all in
                  let (kept, same_entries) =
                    insert_outbox_keeps driver commit.events v x queued_all in
                  let last : x ≡ u = ground arith in
                  rw (sym last) (kept ∙ rows, same_entries ∙ entries)
            ]
          ]
    ]

read_entry-stored :
    (driver : Driver) (entry : JournalEntry) (rows : List PostingRow)
    → entry_from_row entry.id (entry_row driver.kept entry) rows ≡ ok (stored_entry driver entry)
    → read_entry entry.id rows (some (entry_row driver.kept entry))
      ≡ ok (some (stored_entry driver entry))
unfolding read_entry
read_entry-stored driver entry rows read = rw read refl

read_entry-apart :
    (id : TransactionId) (row : Option EntryRow) (rows more : List PostingRow)
    → filter (λ r. r.entry_id == id) rows ≡ filter (λ r. r.entry_id == id) more
    → read_entry id rows row ≡ read_entry id more row
unfolding read_entry entry_from_row
read_entry-apart id none rows more same_rows = refl
read_entry-apart id (some row) rows more same_rows = rw same_rows refl

-- A transaction that commits an entry under an unused identifier, no row of which is among the
-- postings, and whose asset codes, amounts and key are valid, makes it found: reading it back from
-- the rows gives the entry as posted, with its instant as a TIMESTAMPTZ column keeps it and
-- otherwise as it was, and every other entry is found as before.
pub commit_tx_found :
    (driver : Driver) (now : Timestamp) (commit : JournalCommit) (t u : Tables)
    → IsStorableEntry commit.entry
    → get nat_order commit.entry.id t.journal_entries ≡ none
    → any (λ row. row.entry_id == commit.entry.id) t.postings ≡ false
    → commit_tx driver now commit t ≡ (ok committed, u)
    → (find_entry_row commit.entry.id u ≡ ok (some (stored_entry driver commit.entry)))
      × ((id : TransactionId)
          → commit.entry.id == id ≡ false
          → find_entry_row id u ≡ find_entry_row id t)
unfolding find_entry_row
commit_tx_found driver now commit t u storable unused fresh done =
    let entry = commit.entry in
    let (rows, entries) = commit_tx_tables driver now commit t u unused done in
    let read = entry_from_row-entry_row driver entry t.postings storable fresh in
    let found =
      get-insert nat_order entry.id entry.id (entry_row driver.kept entry) t.journal_entries in
    let own = equals_refl nat_order entry.id in
    let here : get nat_order entry.id u.journal_entries ≡ some (entry_row driver.kept entry) =
      rw entries (found ∙ rw own refl) in
    (
      rw (here, rows) (read_entry-stored driver entry _ read),
      λ id apart.
          let elsewhere =
            get-insert nat_order id entry.id (entry_row driver.kept entry) t.journal_entries in
          let differs : equals nat_order id entry.id ≡ false = ground arith in
          let same_row : get nat_order id u.journal_entries ≡ get nat_order id t.journal_entries =
            rw entries (elsewhere ∙ rw differs refl) in
          rw (same_row, rows)
            (read_entry-apart id (get nat_order id t.journal_entries) _ t.postings
              (apart_rows entry.id id t.postings entry.postings apart)),
    )
