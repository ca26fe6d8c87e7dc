-- ===== src/Strategy/Proofs.antt =====
-- What a Merkle proof that the program accepts shows, and which proofs it accepts.
use solana_vault_v.Base.{
  ℕ, ◌≤◌, ◌<◌, ◌≡◌, ◌≢◌, ◌⊎◌, inl, inr, refl, sym, ap, ◌∙◌, List, [], ◌∷◌, ◌++◌, some, ok, leb,
  if◌then◌else◌, Bool-cases, arith,
}
use solana_vault_v.Bytes.{
  Bytes, length, drop, capacity, to_be_onto-append, to_be_onto-injective, Bytes-cases, snoc-cases,
  get_index,
}
use solana_vault_v.State.{Bytes32}
use solana_vault_v.Strategy.Merkle.{
  strategy_leaf_domain, as_ref, node_bytes, hash_strategy_node, fold_proof, verify_strategy_proof,
}

-- Two byte strings with one hash, one of either kind.
abbrev pub Collision : (Bytes → Bytes32) → (Bytes → Type 0) → (Bytes → Type 0) → Type 0
Collision hash P Q = (x y : Bytes) × P x × Q y × (x ≢ y) × (hash x ≡ hash y)

-- The numbers of 32 bytes.
abbrev pub Fits32 : ℕ → Type 0
Fits32 n = n < capacity 32

abbrev pub AllFit : List ℕ → Type 0
AllFit [] = Unit {0}
AllFit (h ∷ rest) = Fits32 h × AllFit rest

as_ref-injective :
    (l r l' r' : ℕ)
    → Fits32 l
    → Fits32 r
    → Fits32 l'
    → Fits32 r'
    → as_ref l ++ as_ref r ≡ as_ref l' ++ as_ref r'
    → (l ≡ l') × (r ≡ r')
as_ref-injective l r l' r' a b c d e =
    let e' =
      sym (to_be_onto-append 32 l [] (as_ref r)) ∙ e ∙ to_be_onto-append 32 l' [] (as_ref r') in
    let (same, rest) = to_be_onto-injective 32 l l' (as_ref r) (as_ref r') a c e' in
    let (same', _) = to_be_onto-injective 32 r r' [] [] b d rest in (same, same')

AllFit-snoc : (ps : List ℕ) (p : ℕ) → AllFit (ps ++ (p ∷ [])) → AllFit ps × Fits32 p
AllFit-snoc [] p (h, _) = (tt, h)
AllFit-snoc (x ∷ ps) p (h, rest) = let (a, b) = AllFit-snoc ps p rest in ((h, a), b)

apart-at :
    (i x y : ℕ) (a b : Bytes) → get_index i a ≡ some x → get_index i b ≡ some y → x ≢ y → a ≢ b
apart-at i x y a b h k other e =
    let both : some x ≡ some y = sym h ∙ ap (get_index i) e ∙ k in ground arith

module _ (hash : Bytes → Bytes32) where
  -- A tree of approved leaves, each the bytes that a leaf commits to after its domain.
  pub data Tree : Type 0 where
    tip : Bytes → Tree
    fork : Tree → Tree → Tree

  abbrev pub root_of : Tree → Bytes32
  root_of (tip rest) = hash (strategy_leaf_domain ++ rest)
  root_of (fork l r) = hash_strategy_node hash (root_of l) (root_of r)

  -- A leaf of a tree, with the hashes beside its path, the lowest first.
  pub data Leaf : Tree → Bytes → List Bytes32 → Type 0 where
    here : (rest : Bytes) → Leaf (tip rest) rest []
    left :
        (l r : Tree) (rest : Bytes) (proof : List Bytes32)
        → Leaf l rest proof
        → Leaf (fork l r) rest (proof ++ (root_of r ∷ []))
    right :
        (l r : Tree) (rest : Bytes) (proof : List Bytes32)
        → Leaf r rest proof
        → Leaf (fork l r) rest (proof ++ (root_of l ∷ []))

  -- One leaf of a tree.
  abbrev pub Holds : Tree → Bytes → Type 0
  Holds (tip rest) b = b ≡ rest
  Holds (fork l r) b = Holds l b ⊎ Holds r b

  -- The bytes that a node is the hash of.
  abbrev pub node_input : Bytes32 → Bytes32 → Bytes
  node_input a b = if leb a b then node_bytes hash a b else node_bytes hash b a

  -- The byte strings that are hashed to build a tree.
  abbrev pub Hashed : Tree → Bytes → Type 0
  Hashed (tip rest) x = x ≡ strategy_leaf_domain ++ rest
  Hashed (fork l r) x = ((x ≡ node_input (root_of l) (root_of r)) ⊎ Hashed l x) ⊎ Hashed r x

  -- Those that are hashed to check a proof of a leaf: the leaf's own, and one for each element.
  abbrev pub Folded : Bytes32 → List Bytes32 → Bytes → Type 0
  Folded leaf [] x = ⊥
  Folded leaf (h ∷ proof) x =
      (x ≡ node_input leaf h) ⊎ Folded (hash_strategy_node hash leaf h) proof x

  abbrev pub Checked : Bytes → List Bytes32 → Bytes → Type 0
  Checked b proof x =
      (x ≡ strategy_leaf_domain ++ b) ⊎ Folded (hash (strategy_leaf_domain ++ b)) proof x

  Folded-snoc :
      (leaf : Bytes32) (ps : List Bytes32) (p : Bytes32) (x : Bytes)
      → (x ≡ node_input (fold_proof hash leaf ps) p) ⊎ Folded leaf ps x
      → Folded leaf (ps ++ (p ∷ [])) x
  Folded-snoc leaf [] p x (inl e) = inl e
  Folded-snoc leaf [] p x (inr f) = absurd f
  Folded-snoc leaf (q ∷ ps) p x (inl e) =
      inr (Folded-snoc (hash_strategy_node hash leaf q) ps p x (inl e))
  Folded-snoc leaf (q ∷ ps) p x (inr (inl e)) = inl e
  Folded-snoc leaf (q ∷ ps) p x (inr (inr f)) =
      inr (Folded-snoc (hash_strategy_node hash leaf q) ps p x (inr f))

  fold_proof-snoc :
      (leaf : Bytes32) (ps : List Bytes32) (p : Bytes32)
      → fold_proof hash leaf (ps ++ (p ∷ [])) ≡ hash_strategy_node hash (fold_proof hash leaf ps) p
  fold_proof-snoc leaf [] p = refl
  fold_proof-snoc leaf (q ∷ ps) p = fold_proof-snoc (hash_strategy_node hash leaf q) ps p

  hash_strategy_node_comm :
      (a b : Bytes32) → hash_strategy_node hash a b ≡ hash_strategy_node hash b a
  unfolding hash_strategy_node
  hash_strategy_node_comm a b = grind arith

  fold_proof-Leaf :
      (t : Tree) (rest : Bytes) (proof : List Bytes32)
      → Leaf t rest proof
      → fold_proof hash (hash (strategy_leaf_domain ++ rest)) proof ≡ root_of t
  fold_proof-Leaf t rest proof (here _) = refl
  fold_proof-Leaf t rest proof (left l r _ ps below) =
      let sub = fold_proof-Leaf l rest ps below in
      fold_proof-snoc _ ps (root_of r) ∙ ap (λ h. hash_strategy_node hash h (root_of r)) sub
  fold_proof-Leaf t rest proof (right l r _ ps below) =
      let sub = fold_proof-Leaf r rest ps below in
      fold_proof-snoc _ ps (root_of l)
      ∙ ap (λ h. hash_strategy_node hash h (root_of l)) sub
      ∙ hash_strategy_node_comm (root_of r) (root_of l)

  -- Every leaf of a tree is accepted with the hashes beside its path, when there are at most twelve.
  pub verify_strategy_proof-Leaf :
      (t : Tree) (rest : Bytes) (proof : List Bytes32)
      → Leaf t rest proof
      → length proof ≤ 12
      → verify_strategy_proof hash (hash (strategy_leaf_domain ++ rest)) proof (root_of t) ≡ ok tt
  unfolding verify_strategy_proof
  verify_strategy_proof-Leaf t rest proof leaf short =
      let folded = fold_proof-Leaf t rest proof leaf in ground arith

  module _ (fits : (x : Bytes) → Fits32 (hash x)) where
    node_bytes-injective :
        (l r l' r' : Bytes32)
        → Fits32 l
        → Fits32 r
        → Fits32 l'
        → Fits32 r'
        → node_bytes hash l r ≡ node_bytes hash l' r'
        → (l ≡ l') × (r ≡ r')
    node_bytes-injective l r l' r' a b c d e = as_ref-injective l r l' r' a b c d (ap (drop 38) e)

    domains-differ : (rest : Bytes) (a b : Bytes32) → strategy_leaf_domain ++ rest ≢ node_input a b
    domains-differ rest a b = elim (Bool-cases (leb a b)) [
      | inl e ↦ rw e (
          apart-at 31 108 110 (strategy_leaf_domain ++ rest) (node_bytes hash a b) refl refl
            (omega arith))
      | inr e ↦ rw e (
          apart-at 31 108 110 (strategy_leaf_domain ++ rest) (node_bytes hash b a) refl refl
            (omega arith))
    ]

    node_lem : (a b : Bytes32) → hash_strategy_node hash a b ≡ hash (node_input a b)
    unfolding hash_strategy_node
    node_lem a b = grind arith

    node-Fits32 : (a b : Bytes32) → Fits32 (hash_strategy_node hash a b)
    node-Fits32 a b = rw (node_lem a b) (fits (node_input a b))

    node_input-injective :
        (a b c d : Bytes32)
        → Fits32 a
        → Fits32 b
        → Fits32 c
        → Fits32 d
        → node_input a b ≡ node_input c d
        → (a ≡ c) ⊎ (a ≡ d)
    node_input-injective a b c d fa fb fc fd e = grind (
      arith,
      node_bytes-injective a b c d fa fb fc fd,
      node_bytes-injective a b d c fa fb fd fc,
      node_bytes-injective b a c d fb fa fc fd,
      node_bytes-injective b a d c fb fa fd fc,
    )

    root_of-Fits32 : (t : Tree) → Fits32 (root_of t)
    root_of-Fits32 (tip rest) = fits (strategy_leaf_domain ++ rest)
    root_of-Fits32 (fork l r) = node-Fits32 (root_of l) (root_of r)

    fold_proof-Fits32 :
        (h : Bytes32) (proof : List Bytes32) → Fits32 h → Fits32 (fold_proof hash h proof)
    fold_proof-Fits32 h [] small = small
    fold_proof-Fits32 h (p ∷ proof) small =
        fold_proof-Fits32 (hash_strategy_node hash h p) proof (node-Fits32 h p)

    -- A result for a part of a tree and of a proof is one for the whole.
    widen :
        {P P' Q Q' : Bytes → Type 0} {A A' : Type 0}
        → ((x : Bytes) → P x → P' x)
        → ((x : Bytes) → Q x → Q' x)
        → (A → A')
        → A ⊎ Collision hash P Q
        → A' ⊎ Collision hash P' Q'
    widen f g k (inl a) = inl (k a)
    widen f g k (inr (x, y, p, q, other, same)) = inr (x, y, f x p, g y q, other, same)

    fold_proof-Holds :
        (t : Tree) (b : Bytes) (proof : List Bytes32)
        → AllFit proof
        → fold_proof hash (hash (strategy_leaf_domain ++ b)) proof ≡ root_of t
        → Holds t b ⊎ Collision hash (Hashed t) (Checked b proof)
    fold_proof-Holds (tip rest) b proof all e = elim (snoc-cases proof) [
      | inl none ↦
          (let same : hash (strategy_leaf_domain ++ b) ≡ hash (strategy_leaf_domain ++ rest) =
              sym (ap (fold_proof hash (hash (strategy_leaf_domain ++ b))) none) ∙ e in
            elim (Bytes-cases (strategy_leaf_domain ++ rest) (strategy_leaf_domain ++ b)) [
              | inl equal ↦ inl (sym (ap (drop 38) equal))
              | inr other ↦ inr (_, _, refl, inl refl, other, sym same)
            ])
      | inr (ps, p, split) ↦
          (let h = hash (strategy_leaf_domain ++ b) in
            let top : fold_proof hash h proof ≡ hash (node_input (fold_proof hash h ps) p) =
              ap (fold_proof hash h) split ∙ fold_proof-snoc h ps p ∙ node_lem _ p in
            inr (
              _,
              node_input (fold_proof hash h ps) p,
              refl,
              inr (rw split (Folded-snoc h ps p _ (inl refl))),
              domains-differ rest (fold_proof hash h ps) p,
              sym e ∙ top,
            ))
    ]
    fold_proof-Holds (fork l r) b proof all e = elim (snoc-cases proof) [
      | inl none ↦ inr (
        node_input (root_of l) (root_of r),
        strategy_leaf_domain ++ b,
        inl (inl refl),
        inl refl,
        λ same. domains-differ b (root_of l) (root_of r) (sym same),
        sym (node_lem (root_of l) (root_of r))
            ∙ sym e
            ∙ ap (fold_proof hash (hash (strategy_leaf_domain ++ b))) none,
      )
      | inr (ps, p, split) ↦
          (let h = hash (strategy_leaf_domain ++ b) in
            let (below, last) = AllFit-snoc ps p (rw (sym split) all) in
            let sub = fold_proof hash h ps in
            let top : hash (node_input (root_of l) (root_of r)) ≡ hash (node_input sub p) =
              sym (node_lem (root_of l) (root_of r))
              ∙ sym e
              ∙ ap (fold_proof hash h) split
              ∙ fold_proof-snoc h ps p
              ∙ node_lem sub p in
            let earlier : (x : Bytes) → Checked b ps x → Checked b proof x = λ x. elim [
              | inl own ↦ inl own
              | inr f ↦ inr (rw split (Folded-snoc h ps p x (inr f)))
            ] in
            elim (Bytes-cases (node_input (root_of l) (root_of r)) (node_input sub p)) [
              | inr other ↦ inr (
                _,
                node_input sub p,
                inl (inl refl),
                inr (rw split (Folded-snoc h ps p _ (inl refl))),
                other,
                top,
              )
              | inl equal ↦
                  elim (node_input-injective sub p (root_of l) (root_of r)
                    (fold_proof-Fits32 h ps (fits (strategy_leaf_domain ++ b))) last
                    (root_of-Fits32 l) (root_of-Fits32 r) (sym equal)) [
                      | inl on_left ↦
                          widen (λ x q. inl (inr q)) earlier inl
                            (fold_proof-Holds l b ps below on_left)
                      | inr on_right ↦
                          widen (λ x q. inr q) earlier inr (fold_proof-Holds r b ps below on_right)
                    ]
            ])
    ]

    -- An accepted proof shows that its leaf is one of the approved leaves, or that one of the byte
    -- strings hashed to build their tree and another one hashed to check the proof have one hash: for
    -- a root that is a tree's, proof elements of 32 bytes, and hashes of 32 bytes.
    pub verify_strategy_proof-Holds :
        (t : Tree) (b : Bytes) (proof : List Bytes32)
        → AllFit proof
        → verify_strategy_proof hash (hash (strategy_leaf_domain ++ b)) proof (root_of t) ≡ ok tt
        → Holds t b ⊎ Collision hash (Hashed t) (Checked b proof)
    unfolding verify_strategy_proof
    verify_strategy_proof-Holds t b proof all h = fold_proof-Holds t b proof all (ground arith)
