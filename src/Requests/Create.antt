-- ===== src/Requests/Create.antt =====
-- Opening a request: `create_deposit_request` takes the assets into escrow, `create_redeem_request`
-- burns the shares (programs/async_vault_v2/src/instructions/create_deposit_request.rs,
-- create_redeem_request.rs).
use solana_vault_v.Base.{
  ℕ, Option, none, some, ok, ◌>>=◌, ◌>>◌, ltb, if◌then◌else◌, u64_max, checked_add,
}
use solana_vault_v.Error.{
  Outcome, require, or_fail, exact, invalid_pending_vault, invalid_asset_mint,
  insufficient_deposit_amount, insufficient_redeem_amount,
}
use solana_vault_v.Fee.{get_extension_fee}
use solana_vault_v.State.{
  ⊤, Pubkey, Vault, VaultAsset, Request, RequestType, pending, deposit, redeem, require_keys_eq,
  is_primary_asset, assert_unpaused_and_initialized, assert_deposit_cap_allows, assert_matches,
  assert_pending_vault, assert_asset_deposit_cap_allows,
}
use solana_vault_v.Runtime.{Addresses, Clock, validate_asset_mint_extensions}
use solana_vault_v.Runtime.Token.{TokenProgram}
use solana_vault_v.Tranche.{
  validate_request_share_mint, enforce_tranche_request_limits, request_nav, RequestShareMintContext,
}
use solana_vault_v.Extensions.{
  check_subscriptions_paused, check_redemptions_paused, check_min_subscription_amount,
  check_min_redemption_amount,
}
use solana_vault_v.Requests.World.{
  World, RequestAccounts, required, transfer_checked, burn_shares, open_pending_request,
}
use solana_vault_v.Requests.Ordering.{assign_queue_id}

pub record RequestArgs : Type 0 where
  pub amount : ℕ  -- u64
  pub operator : Option Pubkey

-- The deposit caps and the escrow account.
unfoldable pub check_deposit_target :
    Vault → Option VaultAsset → Pubkey → Pubkey → Pubkey → ℕ → Outcome ⊤
check_deposit_target v vault_asset vault_key asset_mint pending_vault amount =
    if is_primary_asset v asset_mint
    then (do
      assert_deposit_cap_allows v amount
      require_keys_eq v.pending_vault pending_vault invalid_pending_vault)
    else (do
      a ← or_fail vault_asset invalid_asset_mint
      assert_matches a vault_key asset_mint
      assert_pending_vault a pending_vault
      assert_asset_deposit_cap_allows a amount)

-- The amount joins the pending deposits of the vault or of the asset.
unfoldable pub reserve_pending_deposit :
    Vault → Option VaultAsset → Pubkey → ℕ → Outcome (Vault × Option VaultAsset)
reserve_pending_deposit v vault_asset asset_mint amount =
    if is_primary_asset v asset_mint
    then (do
      total ← exact (checked_add u64_max v.pending_deposit_amount amount)
      ok (record v { pending_deposit_amount = total }, vault_asset))
    else (do
      a ← or_fail vault_asset invalid_asset_mint
      total ← exact (checked_add u64_max a.pending_deposit_amount amount)
      ok (v, some (record a { pending_deposit_amount = total })))

module _ (addresses : Addresses) (T : TokenProgram) (clock : Clock) (accounts : RequestAccounts)
    (args : RequestArgs) where
  open accounts use {
    signer, asset_mint, share_mint, vault_key, pending_vault, user_asset_account,
    user_share_account,
  }

  -- `Request { .. }` of the two instructions
  abbrev new_request : Vault → RequestShareMintContext → RequestType → Request
  new_request v context request_type = record {
    vault = vault_key;
    request_type = request_type;
    request_state = pending;
    owner = signer;
    amount = args.amount;
    price = request_nav context v;
    asset_mint_address = asset_mint.key;
    share_mint_address = share_mint.key;
    created_at = clock.unix_timestamp;
    nav_update_version = v.nav_version;
    operator = args.operator;
  }

  unfoldable pub create_deposit_request : World T → Outcome (World T)
  create_deposit_request w = do
    assert_unpaused_and_initialized w.vault
    context ← validate_request_share_mint addresses w.vault vault_key share_mint.key w.remaining
    escrow ← required pending_vault
    source ← required user_asset_account
    check_deposit_target w.vault w.vault_asset vault_key asset_mint.key escrow args.amount
    check_subscriptions_paused w.extensions
    check_min_subscription_amount w.extensions args.amount
    enforce_tranche_request_limits context share_mint.key deposit args.amount
    deposit_fee ← get_extension_fee w.extensions.deposit_fee args.amount
    require (ltb deposit_fee args.amount) insufficient_deposit_amount
    validate_asset_mint_extensions addresses asset_mint
    tokens' ← transfer_checked T w.tokens source escrow args.amount
    counted ← open_pending_request w.vault
    (v, a) ← reserve_pending_deposit counted w.vault_asset asset_mint.key args.amount
    (id, e, remaining') ← assign_queue_id context share_mint.key deposit w.extensions w.remaining
    ok (record {
      vault = v;
      extensions = e;
      vault_asset = a;
      request = new_request w.vault context deposit;
      ids = record { subscription = id; redemption = none };
      remaining = remaining';
      tokens = tokens';
    })

  -- The asset that a redeem request asks for must be one of the vault's.
  abbrev check_redeem_asset : World T → Outcome ⊤
  check_redeem_asset w = if is_primary_asset w.vault asset_mint.key then ok tt else (do
    a ← or_fail w.vault_asset invalid_asset_mint
    assert_matches a vault_key asset_mint.key)

  unfoldable pub create_redeem_request : World T → Outcome (World T)
  create_redeem_request w = do
    assert_unpaused_and_initialized w.vault
    context ← validate_request_share_mint addresses w.vault vault_key share_mint.key w.remaining
    source ← required user_share_account
    check_redeem_asset w
    check_redemptions_paused w.extensions
    check_min_redemption_amount w.extensions args.amount
    require (ltb 0 args.amount) insufficient_redeem_amount
    enforce_tranche_request_limits context share_mint.key redeem args.amount
    tokens' ← burn_shares T w.tokens share_mint.key source args.amount
    v ← open_pending_request w.vault
    (id, e, remaining') ← assign_queue_id context share_mint.key redeem w.extensions w.remaining
    ok (record {
      vault = v;
      extensions = e;
      vault_asset = w.vault_asset;
      request = new_request w.vault context redeem;
      ids = record { subscription = none; redemption = id };
      remaining = remaining';
      tokens = tokens';
    })
