-- ===== src/Domain/Asset/Normal.antt =====
-- The normal form of asset codes (crates/domain/src/asset.rs).
use iron_ledger.Domain.Asset.{AssetCode, new_asset_code}
use iron_ledger.Prelude.{Bool-cases, [], all, arith, inl, inr, ltb, refl, true, ◌||◌, ◌∷◌, ◌≡◌, ◌≤◌}
use iron_ledger.Prelude.Result.{ok}
use iron_ledger.Prelude.Text.{
  Text, byte_len, is_ascii_alphanumeric, to_ascii_uppercase, to_upper_idem,
}

to_ascii_uppercase-again :
    (s : Text) → to_ascii_uppercase (to_ascii_uppercase s) ≡ to_ascii_uppercase s
unfolding to_ascii_uppercase
to_ascii_uppercase-again [] = refl
to_ascii_uppercase-again (c ∷ s) =
    let head = to_upper_idem c in let tail = to_ascii_uppercase-again s in cc

-- An asset code that `new` accepts is the upper-case form of its input, has 2 to 16 bytes, all of
-- its characters are ASCII letters or digits, and `new` accepts it again unchanged.
pub new_asset_code_normal :
    (raw : Text) (code : AssetCode)
    → new_asset_code raw ≡ ok code
    → (code ≡ to_ascii_uppercase raw)
      × (2 ≤ byte_len code)
      × (byte_len code ≤ 16)
      × (all is_ascii_alphanumeric code ≡ true)
      × (new_asset_code code ≡ ok code)
unfolding new_asset_code
new_asset_code_normal raw code h =
    elim (Bool-cases
      (ltb (byte_len (to_ascii_uppercase raw)) 2 || ltb 16 (byte_len (to_ascii_uppercase raw)))) [
        | inl bad ↦ absurd (ground arith)
        | inr long ↦ elim (Bool-cases (all is_ascii_alphanumeric (to_ascii_uppercase raw))) [
          | inr bad ↦ absurd (ground arith)
          | inl good ↦
              let e : code ≡ to_ascii_uppercase raw = ground arith in
              let again = to_ascii_uppercase-again raw in
              (e, ground arith, ground arith, ground arith, rw (e, again, long, good) refl)
        ]
      ]
