-- ===== src/Matrix/Orders.antt =====
-- The orders of loops by which the products are computed, as one cell sees them: each reaches the same
-- sum over the inner index.
use dsalib.Core.{ℕ, ◌+◌, ◌-◌, ◌<◌, ◌≡◌, ap, ◌∙◌, arith, if◌then◌else◌, ◌==◌, leb, ltb, ◌&&◌, ℤ}
use Prim.Native.Nat.{min}
use dsalib.Matrix.{Matrix}
use dsalib.Matrix.Loops.{for}
use dsalib.Matrix.Loops.{for_by-if, for_by-tiles, for_by-tile_only, for-at, for-at_in, for-ext}
use dsalib.Matrix.Product.{term, added}

-- The loops as one cell sees them.
module _ (a b : Matrix) (i' j' : ℕ) where
  abbrev within : ℕ → ℕ → ℕ → ℤ → ℤ → ℤ
  within from to y u v = if leb from y && ltb y to then u else v

  abbrev total : ℕ → ℕ → ℤ → ℤ
  total from to = for from to 1 (term a b i' j')

  -- A loop over columns inside.
  columns :
      (from to i k : ℕ) (v : ℤ)
      → for from to 1 (λ j. added a b i' j' i j k) v
        ≡ (if i == i' then within from to j' (term a b i' j' k v) v else v)
  columns from to i k v =
      for_by-if (to - from) from to 1 (i == i') (λ j t. if j == j' then term a b i' j' k t else t) v
      ∙ ap (λ (u : ℤ). if i == i' then u else v) (for-at from to j' (term a b i' j' k) v)

  columns_all :
      (cols i k : ℕ) (v : ℤ)
      → j' < cols
      → for 0 cols 1 (λ j. added a b i' j' i j k) v ≡ (if i == i' then term a b i' j' k v else v)
  columns_all cols i k v q =
      for_by-if (cols - 0) 0 cols 1 (i == i') (λ j t. if j == j' then term a b i' j' k t else t) v
      ∙ ap (λ (u : ℤ). if i == i' then u else v) (for-at_in cols j' (term a b i' j' k) v q)

  -- A loop over the inner index inside.
  terms :
      (from to i j : ℕ) (v : ℤ)
      → for from to 1 (λ k. added a b i' j' i j k) v
        ≡ (if i == i' then (if j == j' then total from to v else v) else v)
  terms from to i j v =
      for_by-if (to - from) from to 1 (i == i') (λ k t. if j == j' then term a b i' j' k t else t) v
      ∙ ap (λ (u : ℤ). if i == i' then u else v)
          (for_by-if (to - from) from to 1 (j == j') (term a b i' j') v)

  -- Rows, columns, inner index.
  pub rows-columns-terms :
      (rows cols n : ℕ) (v : ℤ)
      → i' < rows
      → j' < cols
      → for 0 rows 1 (λ i. for 0 cols 1 (λ j. for 0 n 1 (λ k. added a b i' j' i j k))) v
        ≡ total 0 n v
  rows-columns-terms rows cols n v p q =
      for-ext 0 rows 1 (λ i. for 0 cols 1 (λ j. for 0 n 1 (λ k. added a b i' j' i j k)))
        (λ i t. if i == i' then total 0 n t else t) v
        (λ i t.
          for-ext 0 cols 1 (λ j. for 0 n 1 (λ k. added a b i' j' i j k))
            (λ j u. if i == i' then (if j == j' then total 0 n u else u) else u) t
            (λ j u. terms 0 n i j u)
          ∙ for_by-if (cols - 0) 0 cols 1 (i == i') (λ j u. if j == j' then total 0 n u else u) t
          ∙ ap (λ (u : ℤ). if i == i' then u else t) (for-at_in cols j' (total 0 n) t q))
      ∙ for-at_in rows i' (total 0 n) v p

  -- Rows, inner index, columns.
  pub rows-terms-columns :
      (rows cols n : ℕ) (v : ℤ)
      → i' < rows
      → j' < cols
      → for 0 rows 1 (λ i. for 0 n 1 (λ k. for 0 cols 1 (λ j. added a b i' j' i j k))) v
        ≡ total 0 n v
  rows-terms-columns rows cols n v p q =
      for-ext 0 rows 1 (λ i. for 0 n 1 (λ k. for 0 cols 1 (λ j. added a b i' j' i j k)))
        (λ i t. if i == i' then total 0 n t else t) v
        (λ i t.
          for-ext 0 n 1 (λ k. for 0 cols 1 (λ j. added a b i' j' i j k))
            (λ k u. if i == i' then term a b i' j' k u else u) t (λ k u. columns_all cols i k u q)
          ∙ for_by-if (n - 0) 0 n 1 (i == i') (term a b i' j') t)
      ∙ for-at_in rows i' (total 0 n) v p

  -- One tile does its part of the sum on the cells that it holds.
  abbrev tile : (i0 i1 j0 j1 k0 k1 : ℕ) → ℤ → ℤ
  tile i0 i1 j0 j1 k0 k1 v = within i0 i1 i' (within j0 j1 j' (total k0 k1 v) v) v

  tile_terms-rows-columns :
      (i0 i1 j0 j1 k0 k1 : ℕ) (v : ℤ)
      → for k0 k1 1 (λ k. for i0 i1 1 (λ i. for j0 j1 1 (λ j. added a b i' j' i j k))) v
        ≡ tile i0 i1 j0 j1 k0 k1 v
  tile_terms-rows-columns i0 i1 j0 j1 k0 k1 v =
      for-ext k0 k1 1 (λ k. for i0 i1 1 (λ i. for j0 j1 1 (λ j. added a b i' j' i j k)))
        (λ k t. within i0 i1 i' (within j0 j1 j' (term a b i' j' k t) t) t) v
        (λ k t.
          for-ext i0 i1 1 (λ i. for j0 j1 1 (λ j. added a b i' j' i j k))
            (λ i u. if i == i' then within j0 j1 j' (term a b i' j' k u) u else u) t
            (λ i u. columns j0 j1 i k u)
          ∙ for-at i0 i1 i' (λ u. within j0 j1 j' (term a b i' j' k u) u) t)
      ∙ for_by-if (k1 - k0) k0 k1 1 (leb i0 i' && ltb i' i1)
          (λ k t. within j0 j1 j' (term a b i' j' k t) t) v
      ∙ ap (λ (u : ℤ). within i0 i1 i' u v)
          (for_by-if (k1 - k0) k0 k1 1 (leb j0 j' && ltb j' j1) (term a b i' j') v)

  tile_rows-terms-columns :
      (i0 i1 j0 j1 k0 k1 : ℕ) (v : ℤ)
      → for i0 i1 1 (λ i. for k0 k1 1 (λ k. for j0 j1 1 (λ j. added a b i' j' i j k))) v
        ≡ tile i0 i1 j0 j1 k0 k1 v
  tile_rows-terms-columns i0 i1 j0 j1 k0 k1 v =
      for-ext i0 i1 1 (λ i. for k0 k1 1 (λ k. for j0 j1 1 (λ j. added a b i' j' i j k)))
        (λ i t. if i == i' then within j0 j1 j' (total k0 k1 t) t else t) v
        (λ i t.
          for-ext k0 k1 1 (λ k. for j0 j1 1 (λ j. added a b i' j' i j k))
            (λ k u. if i == i' then within j0 j1 j' (term a b i' j' k u) u else u) t
            (λ k u. columns j0 j1 i k u)
          ∙ for_by-if (k1 - k0) k0 k1 1 (i == i') (λ k u. within j0 j1 j' (term a b i' j' k u) u) t
          ∙ ap (λ (u : ℤ). if i == i' then u else t)
              (for_by-if (k1 - k0) k0 k1 1 (leb j0 j' && ltb j' j1) (term a b i' j') t))
      ∙ for-at i0 i1 i' (λ u. within j0 j1 j' (total k0 k1 u) u) v

  -- All tiles of a side `size`, in any order inside a tile that does the tile's part.
  pub tiles-total :
      (rows cols n size : ℕ) (body : (k0 i0 j0 : ℕ) → ℤ → ℤ) (v : ℤ)
      → 0 < size
      → i' < rows
      → j' < cols
      → ((k0 i0 j0 : ℕ) (t : ℤ)
          → body k0 i0 j0 t
            ≡ tile i0 (min (i0 + size) rows) j0 (min (j0 + size) cols) k0 (min (k0 + size) n) t)
      → for 0 n size (λ k0. for 0 rows size (λ i0. for 0 cols size (λ j0. body k0 i0 j0))) v
        ≡ total 0 n v
  tiles-total rows cols n size body v s p q h =
      for-ext 0 n size (λ k0. for 0 rows size (λ i0. for 0 cols size (λ j0. body k0 i0 j0)))
        (λ k0. total k0 (min (k0 + size) n)) v
        (λ k0 t.
          for-ext 0 rows size (λ i0. for 0 cols size (λ j0. body k0 i0 j0))
            (λ i0 u. within i0 (min (i0 + size) rows) i' (total k0 (min (k0 + size) n) u) u) t
            (λ i0 u.
              for-ext 0 cols size (body k0 i0)
                (λ j0.
                  tile i0 (min (i0 + size) rows) j0 (min (j0 + size) cols) k0 (min (k0 + size) n))
                u (λ j0 w. h k0 i0 j0 w)
              ∙ for_by-if (cols - 0) 0 cols size (leb i0 i' && ltb i' (min (i0 + size) rows))
                  (λ j0 w. within j0 (min (j0 + size) cols) j' (total k0 (min (k0 + size) n) w) w) u
              ∙ ap (λ (w : ℤ). within i0 (min (i0 + size) rows) i' w u)
                  (for_by-tile_only (cols - 0) 0 cols size j' (total k0 (min (k0 + size) n)) u s
                    (omega arith) q (omega arith)))
          ∙ for_by-tile_only (rows - 0) 0 rows size i' (total k0 (min (k0 + size) n)) t s
              (omega arith) p (omega arith))
      ∙ for_by-tiles (n - 0) 0 n size (term a b i' j') v s (omega arith)

  pub tiles-terms-rows-columns :
      (rows cols n size : ℕ) (v : ℤ)
      → 0 < size
      → i' < rows
      → j' < cols
      → for 0 n size
          (λ k0. for 0 rows size (λ i0. for 0 cols size (λ j0. for k0 (min (k0 + size) n) 1 (λ k.
            for i0
              (min (i0 + size) rows)
              1
              (λ i. for j0 (min (j0 + size) cols) 1 (λ j. added a b i' j' i j k))))))
          v
        ≡ total 0 n v
  tiles-terms-rows-columns rows cols n size v s p q =
      tiles-total rows cols n size
        (λ k0 i0 j0. for k0 (min (k0 + size) n) 1 (λ k.
          for i0 (min (i0 + size) rows) 1
            (λ i. for j0 (min (j0 + size) cols) 1 (λ j. added a b i' j' i j k))))
        v s p q
        (λ k0 i0 j0 t.
          tile_terms-rows-columns i0 (min (i0 + size) rows) j0 (min (j0 + size) cols) k0
            (min (k0 + size) n) t)

  pub tiles-rows-terms-columns :
      (rows cols n size : ℕ) (v : ℤ)
      → 0 < size
      → i' < rows
      → j' < cols
      → for 0 n size
          (λ k0. for 0 rows size (λ i0. for 0 cols size (λ j0. for i0 (min (i0 + size) rows) 1 (λ i.
            for k0
              (min (k0 + size) n)
              1
              (λ k. for j0 (min (j0 + size) cols) 1 (λ j. added a b i' j' i j k))))))
          v
        ≡ total 0 n v
  tiles-rows-terms-columns rows cols n size v s p q =
      tiles-total rows cols n size
        (λ k0 i0 j0. for i0 (min (i0 + size) rows) 1 (λ i.
          for k0 (min (k0 + size) n) 1
            (λ k. for j0 (min (j0 + size) cols) 1 (λ j. added a b i' j' i j k))))
        v s p q
        (λ k0 i0 j0 t.
          tile_rows-terms-columns i0 (min (i0 + size) rows) j0 (min (j0 + size) cols) k0
            (min (k0 + size) n) t)
