-- ===== src/Doc/Store/Diff/Deleted.antt =====
-- The delete set of a store's nodes.
use octo_base.Base.{
  ℕ, ◌+◌, ◌%◌, ◌^◌, ◌≡◌, refl, ◌∙◌, Bool, true, false, ◌&&◌, ◌||◌, some, List, [], ◌∷◌, ◌==◌,
  Bool-cases, inl, inr,
}
use octo_base.Doc.Client.{ClientMap, get}
use octo_base.Doc.OrderRange.{BinarySearch, in_range}
use octo_base.Doc.DeleteSet.{DeleteSet, add}
use octo_base.Doc.DeleteSet.Holds.{holds, add_range_total}
use octo_base.Doc.Node.{Node, clock, node_len, node_deleted}
use octo_base.Doc.Store.Diff.{delete_nodes, delete_all, generate_delete_set}

-- The clock is within a node that is deleted.
unfoldable deleted_in : List Node → ℕ → Bool
deleted_in [] at = false
deleted_in (n ∷ nodes) at =
    (node_deleted n
      && in_range (record { start = clock n; end = (clock n + node_len n) % 2 ^ 64 }) at)
    || deleted_in nodes at

-- The clock is within a deleted node of the client.
unfoldable pub deleted_of : ClientMap (List Node) → ℕ → ℕ → Bool
unfolding deleted_in
deleted_of [] j at = false
deleted_of ((of_client, nodes) ∷ refs) j at =
    ((of_client == j) && deleted_in nodes at) || deleted_of refs j at

module _ ⦃b : BinarySearch⦄ where
  delete_nodes_total :
      (nodes : List Node) (self : DeleteSet) (c : ℕ)
      → (set : DeleteSet) × (delete_nodes self c nodes ≡ some set)
        × ((j at : ℕ) → holds set j at ≡ (holds self j at || ((c == j) && deleted_in nodes at)))
  unfolding delete_nodes deleted_in add
  delete_nodes_total [] self c = (self, refl, λ j at. nothing_more (holds self j at) (c == j))
    where
      nothing_more : (x y : Bool) → x ≡ (x || (y && false))
      nothing_more true y = refl
      nothing_more false true = refl
      nothing_more false false = refl
  delete_nodes_total (n ∷ nodes) self c = elim (Bool-cases (node_deleted n)) [
    | inl gone ↦
        let (next, e, h) =
          add_range_total self c
            (record { start = clock n; end = (clock n + node_len n) % 2 ^ 64 }) in
        let (set, e', h') = delete_nodes_total nodes next c in
        rw (gone, e)
          (
            set,
            e',
            λ j at.
                h' j at ∙ rw (h j at) (grouped (holds self j at) (c == j) _ (deleted_in nodes at)),
          )
    | inr kept ↦ rw kept (delete_nodes_total nodes self c)
  ]
    where
      grouped : (x y z w : Bool) → ((x || (y && z)) || (y && w)) ≡ (x || (y && (z || w)))
      grouped true y z w = refl
      grouped false true z w = refl
      grouped false false z w = refl

  delete_all_total :
      (refs : ClientMap (List Node)) (self : DeleteSet)
      → (set : DeleteSet) × (delete_all self refs ≡ some set)
        × ((j at : ℕ) → holds set j at ≡ (holds self j at || deleted_of refs j at))
  unfolding delete_all deleted_of
  delete_all_total [] self = (self, refl, λ j at. nothing_more (holds self j at))
    where
      nothing_more : (x : Bool) → x ≡ (x || false)
      nothing_more true = refl
      nothing_more false = refl
  delete_all_total ((c, nodes) ∷ refs) self =
      let (next, e, h) = delete_nodes_total nodes self c in
      let (set, e', h') = delete_all_total refs next in
      rw e (
        set,
        e',
        λ j at. h' j at ∙ rw (h j at) (grouped (holds self j at) _ (deleted_of refs j at)),
      )
    where
      grouped : (x y z : Bool) → ((x || y) || z) ≡ (x || (y || z))
      grouped true y z = refl
      grouped false y z = refl

  -- `generate_delete_set` returns, and its set has exactly the clocks of the nodes that are deleted.
  pub generate_delete_set_total :
      (refs : ClientMap (List Node))
      → (set : DeleteSet) × (generate_delete_set refs ≡ some set)
        × ((j at : ℕ) → holds set j at ≡ deleted_of refs j at)
  unfolding generate_delete_set
  generate_delete_set_total refs =
      let (set, e, h) = delete_all_total refs [] in
      (set, e, λ j at. h j at ∙ unfold holds get in refl)
