-- ===== src/Ledger/Store/Outbox.antt =====
-- The leased outbox of crates/ledger/src/memory.rs.
use mathlib.Core.Option
use iron_ledger.Domain.Ids.{Timestamp}
use iron_ledger.Ledger.Error.{LedgerError, validation}
use iron_ledger.Ledger.Port.{OutboxMessage, OutboxStats, Page}
use iron_ledger.Ledger.Store.{OutboxRow, State}
use iron_ledger.Prelude.{
  Bool, List, Option, [], any, drop, false, filter, get_or, if◌then◌else◌, is_some, ltb, map, min,
  none, not, some, suc, take, zero, ℕ, ◌&&◌, ◌+◌, ◌-◌, ◌==◌, ◌∷◌,
}
use iron_ledger.Prelude.Result.{Result, err, ok}
use iron_ledger.Prelude.Text.{Text}

-- `until > now`, if there is a lease
abbrev pub is_leased : Timestamp → OutboxRow → Bool
is_leased now row = elim row.leased_until [ none ↦ false | some until ↦ ltb now until ]

-- The row can be handed out: it is not published and not leased.
abbrev pub is_claimable : Timestamp → OutboxRow → Bool
is_claimable now row = not (is_some row.message.published_at) && not (is_leased now row)

-- The loop of `claim`, with `room` messages still to claim: those claimed, and the rows after it.
unfoldable pub claim_rows :
    ℕ → Timestamp → Timestamp → List OutboxRow → List OutboxMessage × List OutboxRow
claim_rows room now lease_until [] = ([], [])
claim_rows zero now lease_until (row ∷ rows) = ([], row ∷ rows)
claim_rows (suc room) now lease_until (row ∷ rows) =
    let free = is_claimable now row in
    let (claimed, rest) = claim_rows (if free then room else suc room) now lease_until rows in
    if free
    then (row.message ∷ claimed, record row { leased_until = some lease_until } ∷ rest)
    else (claimed, row ∷ rest)

-- `OutboxRepo::claim`, called at `now`; `lease` is `chrono::Duration::from_std`, its error rendered
unfoldable pub claim :
    ℕ → Result Text ℕ → Timestamp → State → Result LedgerError (List OutboxMessage) × State
unfolding claim_rows
claim limit (err e) now s = (err (validation e), s)
claim limit (ok lease) now s =
    let (claimed, rows) = claim_rows limit now (now + lease) s.outbox in
    (ok claimed, record s { outbox = rows })

abbrev pub contains_id : ℕ → List ℕ → Bool
contains_id id = any (λ other. other == id)

-- The loop of `mark_published`: the number of rows updated, and the rows after it.
unfoldable pub publish_rows : Timestamp → List ℕ → List OutboxRow → ℕ × List OutboxRow
publish_rows now ids [] = (0, [])
publish_rows now ids (row ∷ rows) =
    let (updated, rest) = publish_rows now ids rows in
    if contains_id row.message.id ids && not (is_some row.message.published_at)
    then (
      updated + 1,
      record row { message = record row.message { published_at = some now }; leased_until = none }
          ∷ rest,
    )
    else (updated, row ∷ rest)

-- `OutboxRepo::mark_published`
unfoldable pub mark_published : List ℕ → Timestamp → State → ℕ × State
unfolding publish_rows
mark_published ids now s =
    let (updated, rows) = publish_rows now ids s.outbox in (updated, record s { outbox = rows })

unfoldable pub fail_row : ℕ → Text → List OutboxRow → List OutboxRow
fail_row id error [] = []
fail_row id error (row ∷ rows) =
    if row.message.id == id
    then record row {
      message = record row.message { attempts = row.message.attempts + 1; last_error = some error };
      leased_until = none;
    }
      ∷ rows
    else row ∷ fail_row id error rows

-- `OutboxRepo::mark_failed`
unfoldable pub mark_failed : ℕ → Text → State → State
unfolding fail_row
mark_failed id error s = record s { outbox = fail_row id error s.outbox }

-- The counters of `stats`, without the age.
unfoldable pub count_rows : Timestamp → List OutboxRow → ℕ × ℕ × ℕ × ℕ × Option Timestamp
count_rows now [] = (0, 0, 0, 0, none)
count_rows now (row ∷ rows) =
    let (pending, published, in_flight, retrying, oldest) = count_rows now rows in
    if is_some row.message.published_at
    then (pending, published + 1, in_flight, retrying, oldest)
    else (
      pending + 1,
      published,
      (if is_leased now row then in_flight + 1 else in_flight),
      (if ltb 0 row.message.attempts then retrying + 1 else retrying),
      some (min row.message.created_at (get_or oldest row.message.created_at)),
    )

-- `OutboxRepo::stats`; `seconds` is `num_seconds` of a difference of two instants
unfoldable pub outbox_stats : (ℕ → ℕ) → Timestamp → State → OutboxStats
unfolding count_rows
outbox_stats seconds now s =
    let (pending, published, in_flight, retrying, oldest) = count_rows now s.outbox in
    record {
      pending = pending;
      published = published;
      in_flight = in_flight;
      retrying = retrying;
      oldest_pending_age_seconds = Option.map (λ created. seconds (now - created)) oldest;
    }

-- `OutboxRepo::pending`
unfoldable pub pending_outbox : Page → State → List OutboxMessage
pending_outbox page s =
    map (λ row. row.message)
      (take page.limit
        (drop page.offset (filter (λ row. not (is_some row.message.published_at)) s.outbox)))
