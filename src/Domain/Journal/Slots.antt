-- ===== src/Domain/Journal/Slots.antt =====
-- Amounts by account and asset, as the projection and the reconciliation keep them.
use iron_ledger.Domain.Amount.{AtomicAmount}
use iron_ledger.Domain.Journal.{Posting}
use iron_ledger.Domain.Journal.Sums.{BalanceKey, key_of, key_order}
use iron_ledger.Prelude.{get_or, if◌then◌else◌, ◌≡◌}
use iron_ledger.Prelude.Int.{int_laws, pos, ℤ, ◌+ℤ◌}
use iron_ledger.Prelude.Map.{Map, get, get-insert, insert}
use iron_ledger.Prelude.Order.{equals, equals_sound}

-- The amount in a slot; a missing slot is inserted as zero when it is used.
abbrev pub amount_in : BalanceKey → Map BalanceKey AtomicAmount → ℤ
amount_in key amounts = get_or (get key_order key amounts) (pos 0)

pub amount_in-insert :
    (key : BalanceKey) (p : Posting) (amount : ℤ) (m : Map BalanceKey AtomicAmount)
    → amount ≡ amount_in (key_of p) m +ℤ p.amount
    → amount_in key (insert key_order (key_of p) amount m)
      ≡ amount_in key m +ℤ (if equals key_order key (key_of p) then p.amount else pos 0)
amount_in-insert key p amount m h =
    grind (
      int_laws,
      get-insert key_order key (key_of p) amount m,
      equals_sound key_order key (key_of p),
    )
