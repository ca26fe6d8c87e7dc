-- ===== src/Requests/Approve.antt =====
-- Approving a request (the handler of programs/async_vault_v2/src/instructions/approve_request.rs), in
-- its own order: guards, turn in the queue, settlement of the assets, accounting.
use solana_vault_v.Base.{
  ℕ, Option, ok, err, ◌>>=◌, ◌>>◌, List, ltb, leb, ◌==◌, if◌then◌else◌, u64_max, checked_add,
  checked_sub,
}
use solana_vault_v.Error.{
  Outcome, program, require, or_fail, exact, invalid_request, request_not_pending, invalid_vault,
  invalid_pending_vault, invalid_asset_mint, unsupported_phase_config, nav_is_not_set,
  insufficient_deposit_amount, deposit_cap_exceeded,
}
use solana_vault_v.Fee.{split_protocol_fee, get_fee_and_net}
use solana_vault_v.Pricing.{calculate_shares, calculate_assets}
use solana_vault_v.Limits.{consume_redemption_rolling_limit}
use solana_vault_v.State.{
  ⊤, Pubkey, Vault, VaultAsset, Request, RequestType, deposit, redeem, claimable, require_keys_eq,
  is_primary_asset, assert_unpaused_and_initialized, assert_curator_or_fulfiller, assert_matches,
  assert_reserve, assert_pending_vault, assert_fresh_nav_for_request, assert_nav_not_stale,
}
use solana_vault_v.Runtime.{Addresses, Clock, AccountInfo, validate_asset_mint_extensions}
use solana_vault_v.Runtime.Token.{TokenProgram}
use solana_vault_v.Tranche.{
  validate_request_share_mint, RequestShareMintContext, request_nav, skip_accounts,
}
use solana_vault_v.Requests.World.{
  World, RequestAccounts, required, transfer_checked, close_pending_request, is_pending,
}
use solana_vault_v.Requests.Ordering.{check_fifo_ordering}
use solana_vault_v.Requests.JuniorFloor.{
  maybe_enforce_junior_ratio_floor, update_tranche_supply_cache,
}
use solana_vault_v.Requests.FeeAccounts.{fee_recipient_account, protocol_fee_account, pay_fee}
use solana_vault_v.Requests.Refund.{ExpectedRequest, matches_request, check_mints}

-- What a settlement yields: what the owner may claim, and by how much the vault's balance moves.
pub record Settlement (T : TokenProgram) : Type 0 where
  pub claimable_amount : ℕ
  pub balance_delta : ℕ
  pub settled : World T

-- Only the primary asset is settled: a secondary asset is checked and then refused.
unfoldable pub check_settled_asset :
    Vault → Option VaultAsset → Pubkey → Pubkey → Pubkey → Pubkey → Outcome ⊤
check_settled_asset v vault_asset vault_key asset_mint vault_token_account pending_vault =
    if is_primary_asset v asset_mint
    then (do
      require_keys_eq v.vault_token_account vault_token_account invalid_vault
      require_keys_eq v.pending_vault pending_vault invalid_pending_vault)
    else (do
      a ← or_fail vault_asset invalid_asset_mint
      assert_matches a vault_key asset_mint
      assert_reserve a vault_token_account
      assert_pending_vault a pending_vault
      err (program unsupported_phase_config))

-- The cap is tested once more without the reservation, then the balance grows and the reservation
-- of the request is taken back.
unfoldable pub account_deposit : Vault → ℕ → ℕ → Outcome Vault
account_deposit v balance_delta original_amount = do
  (if ltb 0 v.deposit_cap
      then (do
        capped_total ← exact (checked_add u64_max v.total_asset_balance balance_delta)
        require (leb capped_total v.deposit_cap) deposit_cap_exceeded)
      else ok tt)
  total ← exact (checked_add u64_max v.total_asset_balance balance_delta)
  left ← exact (checked_sub v.pending_deposit_amount original_amount)
  ok (record v { total_asset_balance = total; pending_deposit_amount = left })

unfoldable pub account_redeem : Vault → ℕ → Outcome Vault
account_redeem v balance_delta = do
  total ← exact (checked_sub v.total_asset_balance balance_delta)
  ok (record v { total_asset_balance = total })

abbrev pub account_settlement : RequestType → Vault → ℕ → ℕ → Outcome Vault
account_settlement deposit v balance_delta original_amount =
    account_deposit v balance_delta original_amount
account_settlement redeem v balance_delta _ = account_redeem v balance_delta

module _ (addresses : Addresses) (T : TokenProgram) (clock : Clock)
    (accounts : RequestAccounts) where
  open accounts use {signer, asset_mint, share_mint, vault_key, vault_token_account, pending_vault}

  -- Everything that is checked before the queue: who signs, that the request is the one meant, and
  -- that the NAV is set, newer than the request where that is required, and not stale.
  unfoldable pub check_approval :
      ExpectedRequest → Pubkey → World T → Outcome RequestShareMintContext
  check_approval args escrow w = do
    require (w.request.vault == vault_key) invalid_request
    assert_unpaused_and_initialized w.vault
    assert_curator_or_fulfiller w.vault signer
    validate_asset_mint_extensions addresses asset_mint
    require (is_pending w.request.request_state) request_not_pending
    matches_request w.request args
    check_mints w.request asset_mint.key share_mint.key
    context ← validate_request_share_mint addresses w.vault vault_key share_mint.key w.remaining
    check_settled_asset w.vault w.vault_asset vault_key asset_mint.key vault_token_account escrow
    require (ltb 0 w.vault.nav) nav_is_not_set
    assert_fresh_nav_for_request w.vault w.request.nav_update_version
    assert_nav_not_stale w.vault clock.slot
    ok context

  -- The fees and the net amount leave one token account: for the fee recipient, the protocol, and
  -- the last account.
  unfoldable pub pay_out_net :
      Vault → ℕ → ℕ → Pubkey → Pubkey → List AccountInfo → T.Tokens → Outcome T.Tokens
  pay_out_net v fee net from to remaining t = do
    (protocol_fee, fee_recipient_fee) ← split_protocol_fee fee v.protocol_fee_bps
    (recipient_info, left) ← fee_recipient_account v fee_recipient_fee remaining
    protocol_info ← protocol_fee_account addresses v protocol_fee left
    paid ← pay_fee T t from recipient_info fee_recipient_fee
    paid' ← pay_fee T paid from protocol_info protocol_fee
    transfer_checked T paid' from to net

  -- The shares of the net deposit become claimable, and the assets go from the escrow to the vault.
  unfoldable pub settle_deposit :
      RequestShareMintContext → Pubkey → World T → Outcome (Settlement T)
  settle_deposit context escrow w = do
    (deposit_fee, net_deposit) ← get_fee_and_net w.extensions.deposit_fee w.request.amount
    require (ltb 0 net_deposit) insufficient_deposit_amount
    shares ← calculate_shares (request_nav context w.vault) share_mint.decimals net_deposit
    require (ltb 0 shares) insufficient_deposit_amount
    left ←
        maybe_enforce_junior_ratio_floor addresses w.vault share_mint.key deposit shares
          context.tranche_info (skip_accounts context.consumed_accounts w.remaining)
    remaining' ←
        update_tranche_supply_cache share_mint.key deposit shares share_mint.supply
          context.tranche_info w.remaining
    tokens' ← pay_out_net w.vault deposit_fee net_deposit escrow vault_token_account left w.tokens
    ok (record {
      claimable_amount = shares;
      balance_delta = net_deposit;
      settled = record w { remaining = remaining'; tokens = tokens' };
    })

  -- The assets of the shares go from the vault to the escrow, where the net part becomes claimable.
  unfoldable pub settle_redeem : RequestShareMintContext → Pubkey → World T → Outcome (Settlement T)
  settle_redeem context escrow w = do
    assets ← calculate_assets (request_nav context w.vault) share_mint.decimals w.request.amount
    left ←
        maybe_enforce_junior_ratio_floor addresses w.vault share_mint.key redeem w.request.amount
          context.tranche_info (skip_accounts context.consumed_accounts w.remaining)
    remaining' ←
        update_tranche_supply_cache share_mint.key redeem w.request.amount share_mint.supply
          context.tranche_info w.remaining
    (withdraw_fee, net_assets) ← get_fee_and_net w.extensions.withdrawal_fee assets
    v ← consume_redemption_rolling_limit w.vault assets clock.slot
    tokens' ← pay_out_net v withdraw_fee net_assets vault_token_account escrow left w.tokens
    ok (record {
      claimable_amount = net_assets;
      balance_delta = assets;
      settled = record w { vault = v; remaining = remaining'; tokens = tokens' };
    })

  abbrev pub settle :
      RequestType → RequestShareMintContext → Pubkey → World T → Outcome (Settlement T)
  settle deposit context escrow w = settle_deposit context escrow w
  settle redeem context escrow w = settle_redeem context escrow w

  -- The accounting at the end of the handler, and the request's new amount, price and state.
  unfoldable pub finish_approval : ℕ → Request → Settlement T → Outcome (World T)
  finish_approval nav r s = do
    v ← account_settlement r.request_type (s.settled).vault s.balance_delta r.amount
    counted ← close_pending_request v
    ok (record (s.settled) {
      vault = counted;
      request = record r { amount = s.claimable_amount; price = nav; request_state = claimable };
    })

  unfoldable pub approve_request : ExpectedRequest → World T → Outcome (World T)
  approve_request args w = do
    escrow ← required pending_vault
    context ← check_approval args escrow w
    (e, remaining') ←
        check_fifo_ordering context share_mint.key w.request.request_type w.ids w.extensions
          w.remaining
    s ←
        settle w.request.request_type context escrow
          (record w { extensions = e; remaining = remaining' })
    finish_approval (request_nav context w.vault) w.request s
