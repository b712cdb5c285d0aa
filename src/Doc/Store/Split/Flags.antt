-- ===== src/Doc/Store/Split/Flags.antt =====
-- The flags of the parts of an item that is split.
use octo_base.Base.{ℕ, ◌≡◌, refl, sym, ap, ◌∙◌, false, Option, none, some, Bool-cases, inl, inr}
use octo_base.Base.Result
use octo_base.Base.Result.{Result, ok, err}
use octo_base.Crates.{Bytes}
use octo_base.Doc.Error.{JwstCodecResult}
use octo_base.Doc.Client.{ItemId, id_add}
use octo_base.Doc.ItemFlag
use octo_base.Doc.Content.{Content, countable, split}
use octo_base.Doc.Item.{Item, Parent, Item_new, item_deleted, split_at, keep_flags}
use octo_base.Doc.Node.{Node, item, node_deleted}
use octo_base.Doc.Store.{DocStore}
use octo_base.Doc.Store.Links.{done, ◌>>=◌}
use octo_base.Doc.Store.Split.{split_item_at, link_parts}

new-item_deleted :
    (id : ItemId) (content : Content) (parent : Option Parent) (sub : Option Bytes)
    → item_deleted (Item_new id content none none parent sub) ≡ false
unfolding item_deleted Item_new ItemFlag.deleted ItemFlag.check
new-item_deleted id content parent sub = elim (Bool-cases (countable content)) [
  | inl counts ↦ rw counts refl
  | inr not_counts ↦ rw not_counts refl
]

abbrev parts : Item → ℕ → Content × Content → JwstCodecResult (Item × Item)
parts it offset (left_content, right_content) = ok (
  keep_flags (Item_new it.id left_content none none it.parent it.parent_sub),
  Item_new (id_add it.id offset) right_content none none it.parent it.parent_sub,
)

split_at-item_deleted :
    (it left right : Item) (offset : ℕ)
    → split_at it offset ≡ ok (left, right)
    → item_deleted right ≡ false
unfolding split_at
split_at-item_deleted it left right offset e = by_split (split it.content offset) e
  where
    by_split :
        (r : JwstCodecResult (Content × Content))
        → Result.◌>>=◌ r (parts it offset) ≡ ok (left, right)
        → item_deleted right ≡ false
    by_split (err x) e' = cc
    by_split (ok (left_content, right_content)) e' =
        let same : Item_new (id_add it.id offset) right_content none none it.parent it.parent_sub
            ≡ right =
          cc in
        ap item_deleted (sym same)
        ∙ new-item_deleted (id_add it.id offset) right_content it.parent it.parent_sub

-- Where the split of an item of the store succeeds, its left part is deleted just when the item was, but its
-- right part is not deleted, so that the right half of a deleted item stands in the document again.
pub split_item_revives :
    (self self' : DocStore) (idx diff : ℕ) (it : Item) (left right : Node)
    → split_item_at self idx diff (item it) ≡ done ((left, right), self')
    → (node_deleted left ≡ item_deleted it) × (node_deleted right ≡ false)
unfolding split_item_at link_parts node_deleted item_deleted
split_item_revives self self' idx diff it left right e = by_parts (split_at it diff) refl e
  where
    by_parts :
        (r : JwstCodecResult (Item × Item))
        → split_at it diff ≡ r
        → some r >>= (λ (l, r'). done (link_parts self idx it l r')) ≡ done ((left, right), self')
        → (node_deleted left ≡ item_deleted it) × (node_deleted right ≡ false)
    by_parts (err x) p e' = cc
    by_parts (ok (l, r')) p e' =
        let same : link_parts self idx it l r' ≡ ((left, right), self') = cc in
        let l' = ap (λ (q : (Node × Node) × DocStore). node_deleted q.0.0) (sym same) in
        let r'' = ap (λ (q : (Node × Node) × DocStore). node_deleted q.0.1) (sym same) in
        (l' ∙ refl, r'' ∙ split_at-item_deleted it l r' diff p)
