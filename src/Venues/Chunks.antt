-- ===== src/Venues/Chunks.antt =====
-- The eight-byte chunks that `chunks_exact(8).any(...)` looks through, by their places.
use solana_vault_v.Base.{
  ℕ, zero, suc, ◌+◌, ◌*◌, ◌≤◌, ◌<◌, ◌≡◌, refl, ap, ◌∙◌, sym, true, ◌||◌, [], ◌∷◌, arith, Bool-cases,
  inl, inr,
}
use solana_vault_v.Bytes.{Bytes, length, take, drop, slice, length-drop, drop-drop}
use solana_vault_v.Strategy.Manage.{bytes_equal, any_chunk}

-- One of the first `n` groups of eight bytes.
abbrev pub IsChunk : ℕ → Bytes → Bytes → Type 0
IsChunk n xs chunk = (i : ℕ) × (i < n) × (slice (8 * i) 8 xs ≡ chunk)

bytes_equal-eq : (xs ys : Bytes) → bytes_equal xs ys ≡ true → xs ≡ ys
bytes_equal-eq [] [] h = refl
bytes_equal-eq [] (_ ∷ _) h = absurd (ground arith)
bytes_equal-eq (_ ∷ _) [] h = absurd (ground arith)
bytes_equal-eq (x ∷ xs) (y ∷ ys) h = ground (arith, bytes_equal-eq xs ys)

bytes_equal_self : (xs : Bytes) → bytes_equal xs xs ≡ true
bytes_equal_self [] = refl
bytes_equal_self (x ∷ xs) = ground (arith, bytes_equal_self xs)

-- The first chunk, and those behind it.
any_chunk-step :
    (m : ℕ) (xs chunk : Bytes)
    → 8 ≤ length xs
    → any_chunk (take (8 + m) xs) chunk
      ≡ (bytes_equal (take 8 xs) chunk || any_chunk (take m (drop 8 xs)) chunk)
any_chunk-step m (_ ∷ _ ∷ _ ∷ _ ∷ _ ∷ _ ∷ _ ∷ _ ∷ rest) chunk h =
    let e : 8 + m ≡ suc (suc (suc (suc (suc (suc (suc (suc m))))))) = omega arith in rw e refl
any_chunk-step m [] chunk h = absurd (omega arith)
any_chunk-step m (_ ∷ []) chunk h = absurd (omega arith)
any_chunk-step m (_ ∷ _ ∷ []) chunk h = absurd (omega arith)
any_chunk-step m (_ ∷ _ ∷ _ ∷ []) chunk h = absurd (omega arith)
any_chunk-step m (_ ∷ _ ∷ _ ∷ _ ∷ []) chunk h = absurd (omega arith)
any_chunk-step m (_ ∷ _ ∷ _ ∷ _ ∷ _ ∷ []) chunk h = absurd (omega arith)
any_chunk-step m (_ ∷ _ ∷ _ ∷ _ ∷ _ ∷ _ ∷ []) chunk h = absurd (omega arith)
any_chunk-step m (_ ∷ _ ∷ _ ∷ _ ∷ _ ∷ _ ∷ _ ∷ []) chunk h = absurd (omega arith)

any_chunk-next :
    (n : ℕ) (xs chunk : Bytes)
    → 8 * suc n ≤ length xs
    → any_chunk (take (suc n * 8) xs) chunk
      ≡ (bytes_equal (take 8 xs) chunk || any_chunk (take (n * 8) (drop 8 xs)) chunk)
any_chunk-next n xs chunk h =
    let e : suc n * 8 ≡ 8 + n * 8 = omega arith in
    rw e (any_chunk-step (n * 8) xs chunk (omega arith))

slice-next : (i : ℕ) (xs : Bytes) → slice (8 * i) 8 (drop 8 xs) ≡ slice (8 * suc i) 8 xs
slice-next i xs =
    let e : 8 * suc i ≡ 8 + 8 * i = omega arith in
    rw e (ap (λ r. take 8 r) (drop-drop 8 (8 * i) xs))

pub any_chunk-IsChunk :
    (n : ℕ) (xs chunk : Bytes)
    → 8 * n ≤ length xs
    → any_chunk (take (n * 8) xs) chunk ≡ true
    → IsChunk n xs chunk
any_chunk-IsChunk zero xs chunk h k = absurd (ground arith)
any_chunk-IsChunk (suc n) xs chunk h k =
    let next = any_chunk-next n xs chunk h in
    let shorter = length-drop 8 xs in
    elim (Bool-cases (bytes_equal (take 8 xs) chunk)) [
      | inl same ↦ (0, omega arith, bytes_equal-eq (take 8 xs) chunk same)
      | inr other ↦
          let behind : any_chunk (take (n * 8) (drop 8 xs)) chunk ≡ true =
            rw other at (sym next ∙ k) in
          let (i, low, found) = any_chunk-IsChunk n (drop 8 xs) chunk (omega arith) behind in
          (suc i, omega arith, sym (slice-next i xs) ∙ found)
    ]

pub IsChunk-any_chunk :
    (n : ℕ) (xs chunk : Bytes)
    → 8 * n ≤ length xs
    → IsChunk n xs chunk
    → any_chunk (take (n * 8) xs) chunk ≡ true
IsChunk-any_chunk zero xs chunk h (i, low, found) = absurd (omega arith)
IsChunk-any_chunk (suc n) xs chunk h (zero, low, found) =
    let same : take 8 xs ≡ chunk = found in
    let first : bytes_equal (take 8 xs) chunk ≡ true =
      rw (sym same) (bytes_equal_self (take 8 xs)) in
    any_chunk-next n xs chunk h ∙ ground (arith, first)
IsChunk-any_chunk (suc n) xs chunk h (suc i, low, found) =
    let shorter = length-drop 8 xs in
    let behind =
      IsChunk-any_chunk n (drop 8 xs) chunk (omega arith)
        (i, omega arith, slice-next i xs ∙ found) in
    any_chunk-next n xs chunk h ∙ ground (arith, behind)
