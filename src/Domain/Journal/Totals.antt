-- ===== src/Domain/Journal/Totals.antt =====
-- The totals of `asset_totals` (crates/domain/src/journal.rs).
use iron_ledger.Domain.Amount.{AtomicAmount, checked_add}
use iron_ledger.Domain.Amount.Exact.{checked_add-eq}
use iron_ledger.Domain.Asset.{AssetCode}
use iron_ledger.Domain.Journal.{Posting, add_totals}
use iron_ledger.Domain.Journal.Sums.{asset_sum}
use iron_ledger.Prelude.{List, [], get_or, if◌then◌else◌, ◌∷◌, ◌≡◌}
use iron_ledger.Prelude.Int.{int_laws, pos, ℤ, ◌+ℤ◌}
use iron_ledger.Prelude.Map.{Map, get, get-insert, insert}
use iron_ledger.Prelude.Order.{equals, equals_sound, text_order}
use iron_ledger.Prelude.Result.{succeeded_bind, ok, ok_injective}

abbrev pub total_of : AssetCode → Map AssetCode AtomicAmount → ℤ
total_of asset totals = get_or (get text_order asset totals) (pos 0)

pub total_of-insert :
    (asset : AssetCode) (p : Posting) (total : ℤ) (m : Map AssetCode AtomicAmount)
    → total ≡ total_of p.asset m +ℤ p.amount
    → total_of asset (insert text_order p.asset total m)
      ≡ total_of asset m +ℤ (if equals text_order asset p.asset then p.amount else pos 0)
total_of-insert asset p total m h =
    grind
      (int_laws, get-insert text_order asset p.asset total m, equals_sound text_order asset p.asset)

pub add_totals-eq-sum :
    (asset : AssetCode) (m t : Map AssetCode AtomicAmount) (ps : List Posting)
    → add_totals m ps ≡ ok t
    → total_of asset t ≡ total_of asset m +ℤ asset_sum asset ps
unfolding add_totals
add_totals-eq-sum asset m t [] h = rw (← ok_injective h) (omega int_laws)
add_totals-eq-sum asset m t (p ∷ ps) h =
    let (total, added, rest) = succeeded_bind (checked_add (total_of p.asset m) p.amount) _ h in
    let ih = add_totals-eq-sum asset (insert text_order p.asset total m) t ps rest in
    let step =
      total_of-insert asset p total m (checked_add-eq (total_of p.asset m) p.amount added) in
    rw (ih, step) (omega int_laws)
