-- ===== src/Requests/Backing/System.antt =====
-- All the request instructions of one vault, in any order.
use solana_vault_v.Base.{◌≡◌, ◌≢◌, none, some, List, ok}
use solana_vault_v.State.{Request}
use solana_vault_v.Runtime.{Addresses, Clock}
use solana_vault_v.Runtime.Token.{TokenProgram}
use solana_vault_v.Requests.World.{World, RequestAccounts}
use solana_vault_v.Requests.Refund.{ExpectedRequest, cancel_request, reject_request}
use solana_vault_v.Requests.Queued.{
  cancel_queued_deposit_request, cancel_queued_redemption_request, skip_canceled_queue_request,
}
use solana_vault_v.Requests.Claim.{claim}
use solana_vault_v.Requests.Create.{RequestArgs, create_deposit_request, create_redeem_request}
use solana_vault_v.Requests.Approve.{approve_request}
use solana_vault_v.Requests.Backing.{DistinctEscrow}
use solana_vault_v.Requests.Backing.Books.{Books, books, placed, IsBalanced, KeepsBooks-IsBalanced}
use solana_vault_v.Requests.Backing.Refunds.{cancel_request-KeepsBooks, reject_request-KeepsBooks}
use solana_vault_v.Requests.Backing.Queued.{
  cancel_queued_deposit_request-KeepsBooks, cancel_queued_redemption_request-KeepsBooks,
  skip_canceled_queue_request-KeepsBooks,
}
use solana_vault_v.Requests.Backing.Claims.{claim-KeepsBooks}
use solana_vault_v.Requests.Backing.Creation.{
  create_deposit_request-KeepsBooks, create_redeem_request-KeepsBooks,
}
use solana_vault_v.Requests.Backing.Approval.{approve_request-KeepsBooks}

module _ (addresses : Addresses) (T : TokenProgram) where
  -- One successful call, on a request that stands anywhere among the others. A user's own account is
  -- never the escrow account, whose owner is the vault.
  pub data Step : Books T → Books T → Type 0 where
    create_deposit :
        (clock : Clock) (accounts : RequestAccounts) (args : RequestArgs) (w w' : World T)
        (l m : List Request)
        → create_deposit_request addresses T clock accounts args w ≡ ok w'
        → accounts.user_asset_account ≢ some w.vault.pending_vault
        → Step (books T w (placed l none m)) (books T w' (placed l (some w'.request) m))
    create_redeem :
        (clock : Clock) (accounts : RequestAccounts) (args : RequestArgs) (w w' : World T)
        (l m : List Request)
        → create_redeem_request addresses T clock accounts args w ≡ ok w'
        → accounts.user_share_account ≢ some w.vault.pending_vault
        → Step (books T w (placed l none m)) (books T w' (placed l (some w'.request) m))
    cancel :
        (accounts : RequestAccounts) (w w' : World T) (l m : List Request)
        → cancel_request addresses T accounts w ≡ ok w'
        → DistinctEscrow T w
        → Step (books T w (placed l (some w.request) m)) (books T w' (placed l none m))
    reject :
        (accounts : RequestAccounts) (args : ExpectedRequest) (w w' : World T) (l m : List Request)
        → reject_request addresses T accounts args w ≡ ok w'
        → DistinctEscrow T w
        → Step (books T w (placed l (some w.request) m)) (books T w' (placed l none m))
    cancel_queued_deposit :
        (accounts : RequestAccounts) (w w' : World T) (l m : List Request)
        → cancel_queued_deposit_request addresses T accounts w ≡ ok w'
        → DistinctEscrow T w
        → Step (books T w (placed l (some w.request) m)) (books T w' (placed l (some w'.request) m))
    cancel_queued_redemption :
        (accounts : RequestAccounts) (w w' : World T) (l m : List Request)
        → cancel_queued_redemption_request addresses T accounts w ≡ ok w'
        → Step (books T w (placed l (some w.request) m)) (books T w' (placed l (some w'.request) m))
    skip :
        (accounts : RequestAccounts) (w w' : World T) (l m : List Request)
        → skip_canceled_queue_request addresses T accounts w ≡ ok w'
        → Step (books T w (placed l (some w.request) m)) (books T w' (placed l none m))
    approve :
        (clock : Clock) (accounts : RequestAccounts) (args : ExpectedRequest) (w w' : World T)
        (l m : List Request)
        → approve_request addresses T clock accounts args w ≡ ok w'
        → w.vault.vault_token_account ≢ w.vault.pending_vault
        → Step (books T w (placed l (some w.request) m)) (books T w' (placed l (some w'.request) m))
    claim_approved :
        (accounts : RequestAccounts) (w w' : World T) (l m : List Request)
        → claim addresses T accounts w ≡ ok w'
        → DistinctEscrow T w
        → Step (books T w (placed l (some w.request) m)) (books T w' (placed l none m))

  pub data Steps : Books T → Books T → Type 0 where
    done : {b : Books T} → Steps b b
    then_step : {b b' b'' : Books T} → Steps b b' → Step b' b'' → Steps b b''

  Step-IsBalanced : {b b' : Books T} → Step b b' → IsBalanced T b → IsBalanced T b'
  Step-IsBalanced (create_deposit clock accounts args w w' l m h n) =
      KeepsBooks-IsBalanced T w w' none (some w'.request) l m
        (create_deposit_request-KeepsBooks addresses T clock accounts args w h n)
  Step-IsBalanced (create_redeem clock accounts args w w' l m h n) =
      KeepsBooks-IsBalanced T w w' none (some w'.request) l m
        (create_redeem_request-KeepsBooks addresses T clock accounts args w h n)
  Step-IsBalanced (cancel accounts w w' l m h n) =
      KeepsBooks-IsBalanced T w w' (some w.request) none l m
        (cancel_request-KeepsBooks addresses T accounts w h n)
  Step-IsBalanced (reject accounts args w w' l m h n) =
      KeepsBooks-IsBalanced T w w' (some w.request) none l m
        (reject_request-KeepsBooks addresses T accounts args w h n)
  Step-IsBalanced (cancel_queued_deposit accounts w w' l m h n) =
      KeepsBooks-IsBalanced T w w' (some w.request) (some w'.request) l m
        (cancel_queued_deposit_request-KeepsBooks addresses T accounts w h n)
  Step-IsBalanced (cancel_queued_redemption accounts w w' l m h) =
      KeepsBooks-IsBalanced T w w' (some w.request) (some w'.request) l m
        (cancel_queued_redemption_request-KeepsBooks addresses T accounts w h)
  Step-IsBalanced (skip accounts w w' l m h) =
      KeepsBooks-IsBalanced T w w' (some w.request) none l m
        (skip_canceled_queue_request-KeepsBooks addresses T accounts w h)
  Step-IsBalanced (approve clock accounts args w w' l m h n) =
      KeepsBooks-IsBalanced T w w' (some w.request) (some w'.request) l m
        (approve_request-KeepsBooks addresses T clock accounts args w h n)
  Step-IsBalanced (claim_approved accounts w w' l m h n) =
      KeepsBooks-IsBalanced T w w' (some w.request) none l m
        (claim-KeepsBooks addresses T accounts w h n)

  -- After any successful calls in any order (each under the conditions of its Step: no account
  -- that a user pays from, and neither the vault's own account nor a secondary asset's escrow, is
  -- the vault's escrow account), starting from balanced books, the books are balanced: the escrow
  -- account holds at least what the open requests in the primary asset are owed, the vault's
  -- pending deposits are the sum of its pending deposit requests in that asset, and its count of
  -- pending requests is their number.
  pub Steps-IsBalanced : {b b' : Books T} → Steps b b' → IsBalanced T b → IsBalanced T b'
  Steps-IsBalanced done h = h
  Steps-IsBalanced (then_step steps step) h = Step-IsBalanced step (Steps-IsBalanced steps h)
