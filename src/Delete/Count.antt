-- ===== src/Delete/Count.antt =====
-- Counting nodes and threads, as the loops behind the threads in rpc/block_delete.c do.
use gluster_block.Prelude.{
  ◌+◌, ◌≤◌, ◌≡◌, refl, Bool, true, false, ◌&&◌, ◌||◌, List, [], ◌∷◌, map, arith, All, length,
  select, count_if,
}

module _ {A : Type 0} where
  pub count-map-select :
      {B : Type 0} (p : B → Bool) (f : A → B) (u : A → Bool) (xs : List A)
      → count_if p (map f (select u xs)) ≡ count_if (λ x. u x && p (f x)) xs
  count-map-select p f u [] = refl
  count-map-select p f u (x ∷ xs) = ground (arith, count-map-select p f u xs)

  module _ (p q : A → Bool) where
    -- Two tests that exclude each other count no more than there is.
    pub counts-le :
        (xs : List A) → All (λ x. p x && q x ≡ false) xs → count_if p xs + count_if q xs ≤ length xs
    counts-le [] h = omega arith
    counts-le (x ∷ xs) h = ground (arith, h.0, counts-le xs h.1)

    -- If they count everything, each element passes one of them.
    pub counts-cover :
        (xs : List A)
        → All (λ x. p x && q x ≡ false) xs
        → count_if p xs + count_if q xs ≡ length xs
        → All (λ x. p x || q x ≡ true) xs
    counts-cover [] h e = tt
    counts-cover (x ∷ xs) h e = (
      ground (arith, h.0, counts-le xs h.1),
      counts-cover xs h.1 (ground (arith, h.0, counts-le xs h.1)),
    )
