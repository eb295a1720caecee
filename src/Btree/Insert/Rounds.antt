-- ===== src/Btree/Insert/Rounds.antt =====
-- Every round of the dividing loop puts one cell in its place.
use gnaro.Base.{
  ℕ, zero, suc, ◌+◌, ◌-◌, ◌*◌, ◌%◌, ◌^◌, ◌≤◌, ◌<◌, ◌≡◌, refl, ◌≢◌, ◌∙◌, sym, inl, inr, arith,
  Bool-cases, true, false, ltb, leb, ◌==◌, if◌then◌else◌, ==→eq, ==_refl, ne→not_==, ltb→lt, lt→ltb,
  le→leb, leb→le, not_leb→lt, le→not_ltb, lt→not_leb,
}
use gnaro.Memory.{Pager, ok, memcpy, store32, ◌>>◌}
use gnaro.Memory.Bytes.{Page, blit}
use gnaro.Row.{Row, row_serialize}
use gnaro.Row.RoundTrip.{stored}
use gnaro.Btree.Node.{u32}
use gnaro.Btree.Leaf.View.{Cell, cell_at, leaf_cell_exact}
use gnaro.Btree.Insert.{divide_round, divide_loop}
use gnaro.Btree.Insert.Write.{Writes, blit-Writes, with_cell, with_cell-Writes}
use gnaro.Btree.Insert.Divide.{
  both, copy_to_new, copy_to_old, row_to_new, row_to_old, target, Divided, Divided-new, Divided-old,
}

Writes-eq : (p q : Page) (k : ℕ) (x y : Cell) → x ≡ y → Writes p q k x → Writes p q k y
Writes-eq p q k x y e w = record { at_place = w.at_place ∙ e; elsewhere = w.elsewhere }

module _ (p0 : Page) (c : ℕ) (x : Cell) (i : ℕ) where
  pub target_before : i < c → target p0 c x i ≡ cell_at p0 i
  unfolding target
  target_before h = rw (lt→ltb i c h) refl

  pub target_here : i ≡ c → target p0 c x i ≡ x
  unfolding target
  target_here e = rw (e, le→not_ltb c c (omega arith), ==_refl c) refl

  pub target_behind : c < i → target p0 c x i ≡ cell_at p0 (i - 1)
  unfolding target
  target_behind h = rw (le→not_ltb i c (omega arith), ne→not_== i c (λ e. omega arith)) refl

-- Where the cell number of a round stands to the place of the new cell.
data Order (i c : ℕ) : Type 0 where
  before : i < c → Order i c
  here : i ≡ c → Order i c
  behind : c < i → Order i c

order : (i c : ℕ) → Order i c
order i c = elim (Bool-cases (ltb i c)) [
  | inl lt ↦ before (ltb→lt i c lt)
  | inr ge ↦ elim (Bool-cases (i == c)) [
    | inl eq ↦ here (==→eq i c eq)
    | inr ne ↦ behind (ground arith)
  ]
]

-- What a round comes to, for destination `d` and place `k` there.
module _ (i old new c key d k : ℕ) (row : Row) (s : Pager) (hi : i ≤ 13) (hc : c ≤ 13) (hk : k ≤ 12)
    (side : (if leb 7 i then new else old) ≡ d) (place : i % 7 ≡ k) where
  round_here :
      i ≡ c
      → divide_round i old new c key row s
        ≡ (row_serialize row d (14 + 297 * k + 4) >> store32 d (14 + 297 * k) key) s
  unfolding divide_round
  round_here e =
      let test : (i == c) ≡ true = rw e (==_refl c) in
      rw (test, side, place, leaf_cell_exact k (omega arith)) refl

  round_before :
      i < c → divide_round i old new c key row s ≡ memcpy d (14 + 297 * k) old (14 + 297 * i) 297 s
  unfolding divide_round
  round_before lt =
      let test : (i == c) ≡ false = ne→not_== i c (λ e. omega arith) in
      rw
        (
          test,
          le→not_ltb c i (omega arith),
          lt→not_leb (2 ^ 31) c (omega arith),
          side,
          place,
          leaf_cell_exact k (omega arith),
          leaf_cell_exact i (omega arith),
        )
        refl

  round_behind :
      c < i
      → divide_round i old new c key row s ≡ memcpy d (14 + 297 * k) old (14 + 297 * (i - 1)) 297 s
  unfolding divide_round
  round_behind lt =
      let test : (i == c) ≡ false = ne→not_== i c (λ e. omega arith) in
      let back : u32 (i + 2 ^ 32 - 1) ≡ i - 1 = omega arith in
      rw
        (
          test,
          lt→ltb c i lt,
          lt→not_leb (2 ^ 31) c (omega arith),
          side,
          place,
          back,
          leaf_cell_exact k (omega arith),
          leaf_cell_exact (i - 1) (omega arith),
        )
        refl

module _ (old new : ℕ) (apart : old ≢ new) (s : Pager) (p0 q0 : Page) (c key : ℕ) (row : Row)
    (within : c ≤ 13) (key_fits : key < 2 ^ 32) (id_fits : row.id < 2 ^ 32) where
  -- The new cell.
  abbrev x : Cell
  x = record { key = key; row = stored row }

  -- What a round that leaves `n` rounds does.
  abbrev Rounds : (n : ℕ) → (p q : Page) → Type 0
  Rounds n p q =
      (p' q' : Page) × (divide_loop n old new c key row (both old new apart s p q)
        ≡ ok tt (both old new apart s p' q'))
      × Divided p0 q0 c x 0 p' q'

  module _ (i : ℕ) (p q : Page) (d : Divided p0 q0 c x (suc i) p q) where
    abbrev Round : Type 0
    Round =
        (p' q' : Page) × (divide_round i old new c key row (both old new apart s p q)
          ≡ ok tt (both old new apart s p' q'))
        × Divided p0 q0 c x i p' q'

    round_new : 7 ≤ i → i ≤ 13 → Round
    unfolding divide_round
    round_new h hi =
        let place : i % 7 ≡ i - 7 = omega arith in
        let side : (if leb 7 i then new else old) ≡ new = rw (le→leb 7 i h) refl in
        let state = both old new apart s p q in
        elim (order i c) [
          | here e ↦ (
            p,
            with_cell q (i - 7) key row,
            round_here i old new c key new (i - 7) row state hi within (omega arith) side place e
                ∙ row_to_new old new apart s p q (i - 7) key row (omega arith),
            Divided-new p0 q0 c x i p q d (with_cell q (i - 7) key row) h hi (
                Writes-eq q (with_cell q (i - 7) key row) (i - 7) x (target p0 c x i)
                  (sym (target_here p0 c x i e))
                  (with_cell-Writes q (i - 7) key row (omega arith) key_fits id_fits)),
          )
          | before lt ↦ (
            p,
            blit q (14 + 297 * (i - 7)) p (14 + 297 * i) 297,
            round_before i old new c key new (i - 7) row state hi within (omega arith) side place lt
                ∙ copy_to_new old new apart s p q (i - 7) i (omega arith) (omega arith),
            Divided-new p0 q0 c x i p q d _ h hi (
                Writes-eq q _ (i - 7) (cell_at p i) (target p0 c x i)
                  (d.remaining i (omega arith) (omega arith) ∙ sym (target_before p0 c x i lt))
                  (blit-Writes q p (i - 7) i (omega arith) (omega arith))),
          )
          | behind lt ↦ (
            p,
            blit q (14 + 297 * (i - 7)) p (14 + 297 * (i - 1)) 297,
            round_behind i old new c key new (i - 7) row state hi within (omega arith) side place lt
                ∙ copy_to_new old new apart s p q (i - 7) (i - 1) (omega arith) (omega arith),
            Divided-new p0 q0 c x i p q d _ h hi (
                Writes-eq q _ (i - 7) (cell_at p (i - 1)) (target p0 c x i)
                  (d.remaining (i - 1) (omega arith) (omega arith)
                    ∙ sym (target_behind p0 c x i lt))
                  (blit-Writes q p (i - 7) (i - 1) (omega arith) (omega arith))),
          )
        ]

    round_old : i < 7 → Round
    unfolding divide_round
    round_old h =
        let place : i % 7 ≡ i = omega arith in
        let side : (if leb 7 i then new else old) ≡ old = rw (lt→not_leb 7 i h) refl in
        let state = both old new apart s p q in
        elim (order i c) [
          | here e ↦ (
            with_cell p i key row,
            q,
            round_here i old new c key old i row state (omega arith) within (omega arith) side place
                  e
                ∙ row_to_old old new apart s p q i key row (omega arith),
            Divided-old p0 q0 c x i p q d (with_cell p i key row) h (
                Writes-eq p (with_cell p i key row) i x (target p0 c x i)
                  (sym (target_here p0 c x i e))
                  (with_cell-Writes p i key row (omega arith) key_fits id_fits)),
          )
          | before lt ↦ (
            blit p (14 + 297 * i) p (14 + 297 * i) 297,
            q,
            round_before i old new c key old i row state (omega arith) within (omega arith) side
                  place lt
                ∙ copy_to_old old new apart s p q i i (omega arith) (omega arith),
            Divided-old p0 q0 c x i p q d _ h (
                Writes-eq p _ i (cell_at p i) (target p0 c x i)
                  (d.remaining i (omega arith) (omega arith) ∙ sym (target_before p0 c x i lt))
                  (blit-Writes p p i i (omega arith) (omega arith))),
          )
          | behind lt ↦ (
            blit p (14 + 297 * i) p (14 + 297 * (i - 1)) 297,
            q,
            round_behind i old new c key old i row state (omega arith) within (omega arith) side
                  place lt
                ∙ copy_to_old old new apart s p q i (i - 1) (omega arith) (omega arith),
            Divided-old p0 q0 c x i p q d _ h (
                Writes-eq p _ i (cell_at p (i - 1)) (target p0 c x i)
                  (d.remaining (i - 1) (omega arith) (omega arith)
                    ∙ sym (target_behind p0 c x i lt))
                  (blit-Writes p p i (i - 1) (omega arith) (omega arith))),
          )
        ]

  -- All rounds that are left.
  divide_loop-Divided : (n : ℕ) → n ≤ 14 → (p q : Page) → Divided p0 q0 c x n p q → Rounds n p q
  unfolding divide_loop
  divide_loop-Divided zero h p q d = (p, q, refl, d)
  divide_loop-Divided (suc i) h p q d =
      let (p', q', runs, d') = round i p q d (omega arith) in
      let (p'', q'', rest, d'') = divide_loop-Divided i (omega arith) p' q' d' in
      (p'', q'', rw (runs, rest) refl, d'')
    where
      round : (i : ℕ) (p q : Page) (d : Divided p0 q0 c x (suc i) p q) → i ≤ 13 → Round i p q d
      round i p q d hi = elim (Bool-cases (leb 7 i)) [
        | inl far ↦ round_new i p q d (leb→le 7 i far) hi
        | inr near ↦ round_old i p q d (not_leb→lt 7 i near)
      ]

  Divided-start : Divided p0 q0 c x 14 p0 q0
  Divided-start = record {
    remaining = λ j lt small. refl;
    done_old = λ j le lt. absurd (omega arith);
    done_new = λ j le lt. absurd (omega arith);
    header_old = λ a lt. refl;
    header_new = λ a lt. refl;
  }

  -- The loop of `btree_node_leaf_split_and_insert`, on the page `p0` of a leaf with 13 cells and the
  -- page `q0` of a new one: the first seven of the 14 cells are left in the old node, the other seven
  -- are in the new one, and both headers are as they were.
  pub divide_loop-target : Rounds 14 p0 q0
  divide_loop-target = divide_loop-Divided 14 (omega arith) p0 q0 Divided-start
