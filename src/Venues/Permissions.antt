-- ===== src/Venues/Permissions.antt =====
-- What the registry and an approval permit.
use solana_vault_v.Base.{
  ℕ, ◌*◌, ◌-◌, ◌≤◌, ◌<◌, ◌≡◌, ◌↔◌, true, sym, ◌∙◌, ◌&&◌, ◌++◌, some, ok, leb, arith, is_ok,
}
use solana_vault_v.Venues.Chunks.{any_chunk-IsChunk, IsChunk-any_chunk}
use solana_vault_v.Bytes.{
  Bytes, length, take, slice, zeros, length-append, take-append, length-take,
}
use solana_vault_v.State.{Pubkey, VenueEntry}
use solana_vault_v.Strategy.Manage.{any_chunk, get_prefix, assert_instruction_allowed}
use solana_vault_v.Venues.Registry.{RegisterVenueArgs, register_venue}

register_venue-eq_ok :
    (registry_authority : Pubkey) (bump : ℕ) (args : RegisterVenueArgs) {entry : VenueEntry}
    → register_venue registry_authority bump args ≡ ok entry
    → (args.allowed_discriminator_count ≤ 8)
      × (entry.allowed_discriminator_count ≡ args.allowed_discriminator_count)
      × (entry.allowed_discriminators
          ≡ take (args.allowed_discriminator_count * 8) args.allowed_discriminators
            ++ zeros (64 - args.allowed_discriminator_count * 8))
unfolding register_venue
register_venue-eq_ok registry_authority bump args h = (ground arith, ground arith, ground arith)

-- The prefix that is read back from the registered bytes.
registered_prefix :
    (n : ℕ) (xs : Bytes) (m : ℕ)
    → n ≤ length xs
    → get_prefix n (take n xs ++ zeros m) ≡ some (take n xs)
registered_prefix n xs m h =
    let size = length-take n xs h in
    let all = length-append (take n xs) (zeros m) in
    let whole : take n (take n xs ++ zeros m) ≡ take n xs =
      rw size at (take-append (take n xs) (zeros m)) in
    ground (arith, whole)

-- What is checked of an instruction on a registered venue.
assert_instruction_allowed-any_chunk :
    (registry_authority : Pubkey) (bump : ℕ) (args : RegisterVenueArgs) (instruction_data : Bytes)
    {entry : VenueEntry}
    → length args.allowed_discriminators ≡ 64
    → register_venue registry_authority bump args ≡ ok entry
    → is_ok (assert_instruction_allowed entry instruction_data) ≡ (
        leb 8 (length instruction_data)
        && any_chunk
            (take (args.allowed_discriminator_count * 8) args.allowed_discriminators)
            (take 8 instruction_data))
unfolding assert_instruction_allowed
assert_instruction_allowed-any_chunk registry_authority bump args instruction_data {entry} size h =
    let (few, count, bytes) = register_venue-eq_ok registry_authority bump args h in
    let n = args.allowed_discriminator_count * 8 in
    let prefix =
      registered_prefix n args.allowed_discriminators (64 - n) (omega (arith, few, size)) in
    rw count (rw bytes (ground (arith, prefix, few)))

-- A venue that was registered with 64 bytes of discriminators lets an instruction through exactly
-- when it has at least eight bytes and its first eight are those from place 8 * i on, for an i below
-- the count that was registered; what the caller wrote behind them does not matter.
pub assert_instruction_allowed-register_venue :
    (registry_authority : Pubkey) (bump : ℕ) (args : RegisterVenueArgs) (instruction_data : Bytes)
    {entry : VenueEntry}
    → length args.allowed_discriminators ≡ 64
    → register_venue registry_authority bump args ≡ ok entry
    → (is_ok (assert_instruction_allowed entry instruction_data) ≡ true) ↔ (
        (8 ≤ length instruction_data)
        × ((i : ℕ) × (i < args.allowed_discriminator_count)
            × (slice (8 * i) 8 args.allowed_discriminators ≡ take 8 instruction_data)))
assert_instruction_allowed-register_venue registry_authority bump args instruction_data size h =
    let (few, _, _) = register_venue-eq_ok registry_authority bump args h in
    let checked =
      assert_instruction_allowed-any_chunk registry_authority bump args instruction_data size h in
    let enough : 8 * args.allowed_discriminator_count ≤ length args.allowed_discriminators =
      omega (arith, few, size) in
    let start = take 8 instruction_data in
    (
      λ allowed.
          let both = sym checked ∙ allowed in
          (
            ground (arith, both),
            any_chunk-IsChunk args.allowed_discriminator_count args.allowed_discriminators start
                enough (ground (arith, both)),
          ),
      λ (long, chunk).
          let one =
            IsChunk-any_chunk args.allowed_discriminator_count args.allowed_discriminators start
              enough chunk in
          checked ∙ ground (arith, long, one),
    )
