-- ===== src/Grpc/Resubmitted.antt =====
-- crates/api-grpc/src/map.rs: postings that are shown and read.
use iron_ledger.Domain.Amount.{AtomicAmount, show_amount}
use iron_ledger.Domain.Amount.Exact.{InRange}
use iron_ledger.Domain.Amount.Printed.{parse_i128-show_amount}
use iron_ledger.Domain.Ids.{TransactionId, Uuid}
use iron_ledger.Domain.Journal.{JournalEntry, Posting}
use iron_ledger.Grpc.Mapping.{
  Rendering, map_entry, map_posting, map_posting_inputs, parse_amount, parse_asset, parse_uuid,
  read_posting,
}
use iron_ledger.Grpc.Messages.{ProtoEntry}
use iron_ledger.Grpc.Server.{Services, get_transaction_rpc}
use iron_ledger.Ledger.Action.{reads}
use iron_ledger.Ledger.Command.{PostingInput}
use iron_ledger.Postgres.Convert.Columns.{IsStorable}
use iron_ledger.Prelude.{All, List, [], arith, map, refl, some, ◌∷◌, ◌≡◌}
use iron_ledger.Prelude.Result.{collect, ok}
use iron_ledger.Prelude.Text.{Text, codes}

-- An identifier is read back from its text.
abbrev pub ReadsIds : Rendering → Type 0
ReadsIds r = (id : Uuid) → r.read_uuid (r.show_uuid id) ≡ some id

-- The posting as the input of a command.
abbrev pub input_of : Posting → PostingInput
input_of p = record { account_id = p.account_id; asset = p.asset; amount = p.amount }

parse_uuid-show_uuid :
    (r : Rendering) (id : Uuid) (label : Text)
    → ReadsIds r
    → parse_uuid r (r.show_uuid id) label ≡ ok id
unfolding parse_uuid
parse_uuid-show_uuid r id label reads = let read = reads id in ground arith

parse_amount-show_amount :
    (a : AtomicAmount) (label : Text) → InRange a → parse_amount (show_amount a) label ≡ ok a
unfolding parse_amount
parse_amount-show_amount a label h = let read = parse_i128-show_amount a h in ground arith

read_posting-map_posting :
    (r : Rendering) (p : Posting)
    → ReadsIds r
    → IsStorable p
    → read_posting r (map_posting r p) ≡ ok (input_of p)
unfolding read_posting parse_asset
read_posting-map_posting r p reads (code, small) =
    rw
      (
        parse_uuid-show_uuid r p.account_id (codes "account_id") reads,
        code,
        parse_amount-show_amount p.amount (codes "amount_atomic") small,
      )
      refl

map_posting_inputs-map_posting :
    (r : Rendering) (ps : List Posting)
    → ReadsIds r
    → All IsStorable ps
    → map_posting_inputs r (map (map_posting r) ps) ≡ ok (map input_of ps)
unfolding map_posting_inputs collect
map_posting_inputs-map_posting r [] reads h = refl
map_posting_inputs-map_posting r (p ∷ ps) reads (first, rest) =
    rw (read_posting-map_posting r p reads first, map_posting_inputs-map_posting r ps reads rest)
      refl

-- An entry that the service finds, and whose asset codes and amounts are valid, is returned to a
-- client that asks for it by the text of its identifier, and the postings that the client is shown
-- are read back by a later request as those of the entry, in the same order, if an identifier can be
-- read from its text.
pub get_transaction_rpc_resubmitted :
    {S : Type 0} (r : Rendering) (services : Services S) (id : TransactionId) (entry : JournalEntry)
    (s : S)
    → ReadsIds r
    → services.get_transaction id s ≡ ok entry
    → All IsStorable entry.postings
    → (shown : ProtoEntry) × (get_transaction_rpc r services (r.show_uuid id) s ≡ ok shown)
      × (map_posting_inputs r shown.postings ≡ ok (map input_of entry.postings))
unfolding get_transaction_rpc map_entry
get_transaction_rpc_resubmitted r services id entry s reads found storable = (
  map_entry r entry,
  rw (parse_uuid-show_uuid r id (codes "transaction_id") reads, found) refl,
  map_posting_inputs-map_posting r entry.postings reads storable,
)
