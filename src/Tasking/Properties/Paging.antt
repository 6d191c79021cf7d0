-- ===== src/Tasking/Properties/Paging.antt =====
-- Pages of rows: a SELECT with LIMIT and OFFSET, as `list_tasks` of
-- api/src/tasking/tasks/repository.py issues it once per page.
use Prim.Native.Nat.{zero, suc}
use workspaces_backend.Base.{
  ℕ, ◌+◌, ◌*◌, ◌≤◌, ◌≡◌, sym, ap, ◌∙◌, List, [], ◌++◌, length, take, drop, no_product, product,
  take-all, drop-plus, take-plus, next_product,
}

module _ {A : Type 0} (size : ℕ) (rows : List A) where
  abbrev pub page_of : ℕ → List A
  page_of m = take size (drop (m * size) rows)

  -- `count` pages, one after another, from page `m` on.
  abbrev pub collected : ℕ → ℕ → List A
  collected m zero = []
  collected m (suc count) = page_of m ++ collected (m + 1) count

  collected-take : (m count : ℕ) → collected m count ≡ take (count * size) (drop (m * size) rows)
  collected-take m zero = ap (λ n. take n (drop (m * size) rows)) (sym (no_product size))
  collected-take m (suc count) =
      ap (λ r. page_of m ++ r)
        (collected-take (m + 1) count
          ∙ ap (λ n. take (count * size) (drop n rows)) (product m size)
          ∙ ap (take (count * size)) (drop-plus (m * size) size rows))
      ∙ sym (take-plus size (count * size) (drop (m * size) rows))
      ∙ ap (λ n. take n (drop (m * size) rows)) (sym (next_product count size))

  -- Enough pages have all rows.
  pub collected-all : (count : ℕ) → length rows ≤ count * size → collected 0 count ≡ rows
  collected-all count enough =
      collected-take 0 count
      ∙ ap (λ n. take (count * size) (drop n rows)) (no_product size)
      ∙ take-all (count * size) rows enough
