-- ===== src/Domain/Journal/Sums.antt =====
-- What postings add up to, for one asset and for one account and asset.
use iron_ledger.Domain.Asset.{AssetCode}
use iron_ledger.Domain.Ids.{AccountId}
use iron_ledger.Domain.Journal.{Posting}
use iron_ledger.Prelude.{List, [], if◌then◌else◌, ◌++◌, ◌∷◌, ◌≡◌}
use iron_ledger.Prelude.Int.{int_laws, pos, ℤ, ◌+ℤ◌}
use iron_ledger.Prelude.Order.{Order, equals, nat_order, pair_order, text_order}

-- The key of a balance.
abbrev pub BalanceKey : Type 0
BalanceKey = AccountId × AssetCode

abbrev pub key_order : Order BalanceKey
key_order = pair_order nat_order text_order

abbrev pub key_of : Posting → BalanceKey
key_of p = (p.account_id, p.asset)

-- The sum of the postings in an asset.
abbrev pub asset_sum : AssetCode → List Posting → ℤ
asset_sum asset [] = pos 0
asset_sum asset (p ∷ ps) =
    (if equals text_order asset p.asset then p.amount else pos 0) +ℤ asset_sum asset ps

-- The sum of the postings to one balance.
abbrev pub posting_sum : BalanceKey → List Posting → ℤ
posting_sum key [] = pos 0
posting_sum key (p ∷ ps) =
    (if equals key_order key (key_of p) then p.amount else pos 0) +ℤ posting_sum key ps

pub posting_sum-append :
    (key : BalanceKey) (ps qs : List Posting)
    → posting_sum key (ps ++ qs) ≡ posting_sum key ps +ℤ posting_sum key qs
posting_sum-append key [] qs = omega int_laws
posting_sum-append key (p ∷ ps) qs = rw (posting_sum-append key ps qs) (omega int_laws)

pub asset_sum-append :
    (asset : AssetCode) (ps qs : List Posting)
    → asset_sum asset (ps ++ qs) ≡ asset_sum asset ps +ℤ asset_sum asset qs
asset_sum-append asset [] qs = omega int_laws
asset_sum-append asset (p ∷ ps) qs = rw (asset_sum-append asset ps qs) (omega int_laws)

pub asset_sum_snoc :
    (asset : AssetCode) (ps : List Posting) (p : Posting)
    → asset_sum asset (ps ++ p ∷ [])
      ≡ asset_sum asset ps +ℤ (if equals text_order asset p.asset then p.amount else pos 0)
asset_sum_snoc asset ps p = rw (asset_sum-append asset ps (p ∷ [])) (omega int_laws)
