-- ===== src/Retry/Batches.antt =====
-- `batched` of common/retry.py: the items in chunks of `size`, in order.
use mathlib.Core.List.{append_assoc}
use real_time_data_pipeline.Base.{
  ℕ, ◌≤◌, ◌<◌, max, ◌≡◌, refl, ap, ◌∙◌, true, false, List, [], ◌∷◌, ◌++◌, arith, length,
  length-append, concat, leb, Bool-cases, inl, inr,
}

module _ {ℓ} {A : Type ℓ} where
  -- What is left of the batch at the end is yielded if it is not empty.
  abbrev pub leftover : List A → List (List A)
  leftover [] = []
  leftover (b ∷ batch) = (b ∷ batch) ∷ []

  -- The loop, with the current batch.
  unfoldable pub chunks : ℕ → List A → List A → List (List A)
  chunks size batch [] = leftover batch
  chunks size batch (item ∷ items) =
      let batch' = batch ++ item ∷ [] in
      elim (leb size (length batch')) [
        | true ↦ batch' ∷ chunks size [] items
        | false ↦ chunks size batch' items
      ]

  unfoldable pub batched : ℕ → List A → List (List A)
  unfolding chunks
  batched size items = chunks size [] items

  -- A chunk that is yielded while the loop runs, and the chunks of a whole run.
  abbrev pub IsFull : ℕ → List A → Type 0
  IsFull size xs = length xs ≡ max 1 size

  abbrev pub AreChunks : ℕ → List (List A) → Type 0
  AreChunks size [] = Unit
  AreChunks size (xs ∷ []) = (1 ≤ length xs) × (length xs ≤ max 1 size)
  AreChunks size (xs ∷ ys ∷ rest) = IsFull size xs × AreChunks size (ys ∷ rest)

  AreChunks-cons :
      (size : ℕ) (xs : List A) (xss : List (List A))
      → IsFull size xs
      → AreChunks size xss
      → AreChunks size (xs ∷ xss)
  AreChunks-cons size xs [] h k = omega arith
  AreChunks-cons size xs (ys ∷ rest) h k = (h, k)

  chunks_lem :
      (size : ℕ) (batch items : List A)
      → length batch < max 1 size
      → (concat (chunks size batch items) ≡ batch ++ items)
        × AreChunks size (chunks size batch items)
  unfolding chunks
  chunks_lem size [] [] h = (refl, tt)
  chunks_lem size (b ∷ batch) [] h = (refl, (omega arith, omega arith))
  chunks_lem size batch (item ∷ items) h =
      elim (Bool-cases (leb size (length (batch ++ item ∷ [])))) [
        | inl full ↦
            let rec = chunks_lem size [] items (omega arith) in
            rw (full, concat, AreChunks)
              (
                ap (λ l. (batch ++ item ∷ []) ++ l) rec.0 ∙ append_assoc batch (item ∷ []) items,
                AreChunks-cons size _ _ (ground (arith, length-append batch (item ∷ []))) rec.1,
              )
        | inr room ↦
            let rec =
              chunks_lem size (batch ++ item ∷ []) items
                (ground (arith, length-append batch (item ∷ []))) in
            rw (room, concat, AreChunks) (rec.0 ∙ append_assoc batch (item ∷ []) items, rec.1)
      ]

  -- The chunks are the items in their order, none lost and none twice. Every chunk but the last
  -- has `max(1, size)` items, and the last has at least one and at most as many.
  pub batched_lem :
      (size : ℕ) (items : List A)
      → (concat (batched size items) ≡ items) × AreChunks size (batched size items)
  unfolding batched
  batched_lem size items = chunks_lem size [] items (omega arith)
