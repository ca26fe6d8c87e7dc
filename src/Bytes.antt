-- ===== src/Bytes.antt =====
-- Byte slices as lists of numbers below 256, with their lengths on the native numbers, and the
-- little-endian bytes of a `u16`.
use solana_vault_v.Base.{
  ℕ, zero, suc, ◌+◌, ◌-◌, ◌*◌, ◌/◌, ◌%◌, ◌≤◌, ◌<◌, ◌≡◌, refl, ap, ◌∙◌, List, [], ◌∷◌, ◌++◌, Option,
  none, some, u64_max, arith, ◌≢◌, ◌⊎◌, inl, inr,
}

abbrev pub Bytes : Type 0
Bytes = List ℕ

abbrev pub length {ℓ} : {A : Type ℓ} → List A → ℕ
length [] = 0
length (_ ∷ rest) = suc (length rest)

abbrev pub take {ℓ} : {A : Type ℓ} → ℕ → List A → List A
take zero _ = []
take (suc n) [] = []
take (suc n) (a ∷ rest) = a ∷ take n rest

abbrev pub drop {ℓ} : {A : Type ℓ} → ℕ → List A → List A
drop zero xs = xs
drop (suc n) [] = []
drop (suc n) (_ ∷ rest) = drop n rest

-- `data[from..from + n]`, within the bounds
abbrev pub slice {ℓ} : {A : Type ℓ} → ℕ → ℕ → List A → List A
slice from n xs = take n (drop from xs)

abbrev pub zeros : ℕ → Bytes
zeros zero = []
zeros (suc n) = 0 ∷ zeros n

-- The low and the high byte of `to_le_bytes` of a `u16`, and `u16::from_le_bytes`.
abbrev pub low : ℕ → ℕ
low n = n % 256

abbrev pub high : ℕ → ℕ
high n = n / 256 % 256

abbrev pub from_le : ℕ → ℕ → ℕ
from_le a b = a + 256 * b

pub from_le-low : (n : ℕ) → n < 65_536 → from_le (low n) (high n) ≡ n
from_le-low n h = omega arith

pub length-append {ℓ} : {A : Type ℓ} (a b : List A) → length (a ++ b) ≡ length a + length b
length-append [] b = omega arith
length-append (x ∷ a) b = omega (arith, length-append a b)

pub length-zeros : (n : ℕ) → length (zeros n) ≡ n
length-zeros zero = refl
length-zeros (suc n) = omega (arith, length-zeros n)

pub take-append {ℓ} : {A : Type ℓ} (a b : List A) → take (length a) (a ++ b) ≡ a
take-append [] b = refl
take-append (x ∷ a) b = ap (λ r. x ∷ r) (take-append a b)

pub drop-append {ℓ} : {A : Type ℓ} (a b : List A) → drop (length a) (a ++ b) ≡ b
drop-append [] b = refl
drop-append (x ∷ a) b = drop-append a b

pub drop-add {ℓ} : {A : Type ℓ} (n : ℕ) (a b : List A) → drop (length a + n) (a ++ b) ≡ drop n b
drop-add n [] b = ap (λ k. drop k b) (omega arith)
drop-add n (x ∷ a) b =
    let more = drop-add n a b in
    let step : suc (length a) + n ≡ suc (length a + n) = omega arith in rw step more

pub drop-zeros : (n m : ℕ) → n ≤ m → drop n (zeros m) ≡ zeros (m - n)
drop-zeros zero m h = ap zeros (omega arith)
drop-zeros (suc n) zero h = absurd (omega arith)
drop-zeros (suc n) (suc m) h = drop-zeros n m (omega arith) ∙ ap zeros (omega arith)

pub length-drop {ℓ} : {A : Type ℓ} (n : ℕ) (a : List A) → length (drop n a) ≡ length a - n
length-drop zero a = omega arith
length-drop (suc n) [] = omega arith
length-drop (suc n) (_ ∷ a) = omega (arith, length-drop n a)

pub drop-drop {ℓ} : {A : Type ℓ} (n m : ℕ) (xs : List A) → drop m (drop n xs) ≡ drop (n + m) xs
drop-drop zero m xs = ap (λ k. drop k xs) (omega arith)
drop-drop (suc n) zero [] = let e : suc n + zero ≡ suc n = omega arith in rw e refl
drop-drop (suc n) (suc m) [] = let e : suc n + suc m ≡ suc (n + suc m) = omega arith in rw e refl
drop-drop (suc n) m (x ∷ xs) =
    let e : suc n + m ≡ suc (n + m) = omega arith in rw e (drop-drop n m xs)

pub append_assoc {ℓ} : {A : Type ℓ} (a b c : List A) → (a ++ b) ++ c ≡ a ++ (b ++ c)
append_assoc [] b c = refl
append_assoc (x ∷ a) b c = ap (λ r. x ∷ r) (append_assoc a b c)

-- `to_le_bytes` of an unsigned integer of so many bytes, and `from_le_bytes`.
abbrev pub to_le_bytes : ℕ → ℕ → Bytes
to_le_bytes zero n = []
to_le_bytes (suc width) n = n % 256 ∷ to_le_bytes width (n / 256)

abbrev pub from_le_bytes : Bytes → ℕ
from_le_bytes [] = 0
from_le_bytes (b ∷ rest) = b + 256 * from_le_bytes rest

pub length-to_le_bytes : (width n : ℕ) → length (to_le_bytes width n) ≡ width
length-to_le_bytes zero n = refl
length-to_le_bytes (suc width) n = omega (arith, length-to_le_bytes width (n / 256))

abbrev pub capacity : ℕ → ℕ
capacity zero = 1
capacity (suc width) = 256 * capacity width

pub from_le_bytes-to_le_bytes :
    (width n : ℕ) → n < capacity width → from_le_bytes (to_le_bytes width n) ≡ n
from_le_bytes-to_le_bytes zero n h = omega arith
from_le_bytes-to_le_bytes (suc width) n h =
    omega (arith, from_le_bytes-to_le_bytes width (n / 256) (omega arith))

pub append_nil {ℓ} : {A : Type ℓ} (a : List A) → a ++ [] ≡ a
append_nil [] = refl
append_nil (x ∷ a) = ap (λ r. x ∷ r) (append_nil a)

-- A plain-data `u64`.
abbrev pub u64_bytes : ℕ → Bytes
u64_bytes n = to_le_bytes 8 n

pub u64_bytes-read : (n : ℕ) → n ≤ u64_max → from_le_bytes (u64_bytes n) ≡ n
u64_bytes-read n h = from_le_bytes-to_le_bytes 8 n (omega arith)

-- `to_be_bytes`: the most significant byte first.
abbrev pub to_be_onto : ℕ → ℕ → Bytes → Bytes
to_be_onto zero n after = after
to_be_onto (suc width) n after = to_be_onto width (n / 256) (n % 256 ∷ after)

abbrev pub to_be_bytes : ℕ → ℕ → Bytes
to_be_bytes width n = to_be_onto width n []

-- `slice.get(index)`
abbrev pub get_index {ℓ} : {A : Type ℓ} → ℕ → List A → Option A
get_index _ [] = none
get_index zero (a ∷ _) = some a
get_index (suc i) (_ ∷ rest) = get_index i rest

-- Two byte strings are equal or not.
pub Bytes-cases : (a b : Bytes) → (a ≡ b) ⊎ (a ≢ b)
Bytes-cases [] [] = inl refl
Bytes-cases [] (y ∷ b) = inr (λ e. cc)
Bytes-cases (x ∷ a) [] = inr (λ e. cc)
Bytes-cases (x ∷ a) (y ∷ b) = grind (arith, Bytes-cases a b)

pub to_be_onto-append :
    (width n : ℕ) (a c : Bytes) → to_be_onto width n a ++ c ≡ to_be_onto width n (a ++ c)
to_be_onto-append zero n a c = refl
to_be_onto-append (suc width) n a c = to_be_onto-append width (n / 256) (n % 256 ∷ a) c

pub to_be_onto-injective :
    (width n m : ℕ) (a b : Bytes)
    → n < capacity width
    → m < capacity width
    → to_be_onto width n a ≡ to_be_onto width m b
    → (n ≡ m) × (a ≡ b)
to_be_onto-injective zero n m a b small small' e = (omega arith, e)
to_be_onto-injective (suc width) n m a b small small' e =
    let (above, below) =
      to_be_onto-injective width (n / 256) (m / 256) (n % 256 ∷ a) (m % 256 ∷ b) (omega arith)
        (omega arith) e in
    let digit : n % 256 ≡ m % 256 = cc in let rest : a ≡ b = cc in (omega arith, rest)

-- A list is empty or ends in an element.
pub snoc-cases {ℓ} :
    {A : Type ℓ} (xs : List A) → (xs ≡ []) ⊎ ((ys : List A) × (y : A) × (xs ≡ ys ++ (y ∷ [])))
snoc-cases [] = inl refl
snoc-cases (x ∷ xs) = elim (snoc-cases xs) [
  | inl e ↦ inr ([], x, ap (λ r. x ∷ r) e)
  | inr (ys, y, e) ↦ inr (x ∷ ys, y, ap (λ r. x ∷ r) e)
]

pub to_le_bytes-injective :
    (width n m : ℕ) (c d : Bytes)
    → n < capacity width
    → m < capacity width
    → to_le_bytes width n ++ c ≡ to_le_bytes width m ++ d
    → (n ≡ m) × (c ≡ d)
to_le_bytes-injective zero n m c d small small' e = (omega arith, e)
to_le_bytes-injective (suc width) n m c d small small' e =
    let digit : n % 256 ≡ m % 256 = cc in
    let rest : to_le_bytes width (n / 256) ++ c ≡ to_le_bytes width (m / 256) ++ d = cc in
    let (above, after) =
      to_le_bytes-injective width (n / 256) (m / 256) c d (omega arith) (omega arith) rest in
    (omega arith, after)

pub append-injective {ℓ} :
    {A : Type ℓ} (a b c d : List A) → length a ≡ length b → a ++ c ≡ b ++ d → (a ≡ b) × (c ≡ d)
append-injective [] [] c d same e = (refl, e)
append-injective [] (_ ∷ b) c d same e = absurd (omega arith)
append-injective (_ ∷ a) [] c d same e = absurd (omega arith)
append-injective (x ∷ a) (y ∷ b) c d same e =
    let head : x ≡ y = cc in
    let tail : a ++ c ≡ b ++ d = cc in
    let (first, last) = append-injective a b c d (omega arith) tail in
    (ap (λ z. z ∷ a) head ∙ ap (λ r. y ∷ r) first, last)

pub length-take {ℓ} : {A : Type ℓ} (n : ℕ) (a : List A) → n ≤ length a → length (take n a) ≡ n
length-take zero a h = refl
length-take (suc n) [] h = absurd (omega arith)
length-take (suc n) (_ ∷ a) h = omega (arith, length-take n a (omega arith))
