-- ===== src/Doc/Node.antt =====
-- `Node` of libs/jwst-codec/src/doc/codec/refs.rs.
use octo_base.Base.{ℕ, bit_and, Bool, true, false, Option, none, some, ◌==◌, if◌then◌else◌}
use octo_base.Base.Result.{ok, err, ◌>>=◌ as and_then}
use octo_base.Crates.{Crates, Bytes}
use octo_base.Codec.Integer.{write_var_u64}
use octo_base.Doc.Error.{JwstCodecResult, raised, item_split_not_support}
use octo_base.Doc.Client.{ItemId, id_add}
use octo_base.Doc.Io.{Reader, pure, ◌>>=◌, read_u64, read_info}
use octo_base.Doc.ItemFlag
use octo_base.Doc.ItemFlag.{ItemFlag}
use octo_base.Doc.Content.{Content, Json, ytype, split}
use octo_base.Doc.Item.{Item, item_len, last_id, Item_new, read_item, write_item}

pub record NodeLen : Type 0 where
  pub id : ItemId
  pub len : ℕ

pub data Node : Type 0 where
  gc : NodeLen → Node
  skip : NodeLen → Node
  item : Item → Node

unfoldable pub new_skip : ItemId → ℕ → Node
new_skip id len = skip (record { id = id; len = len })

unfoldable pub new_gc : ItemId → ℕ → Node
new_gc id len = gc (record { id = id; len = len })

unfoldable pub node_id : Node → ItemId
node_id (gc n) = n.id
node_id (skip n) = n.id
node_id (item i) = i.id

unfoldable pub client : Node → ℕ
unfolding node_id
client self = (node_id self).client

unfoldable pub clock : Node → ℕ
unfolding node_id
clock self = (node_id self).clock

unfoldable pub node_len : Node → ℕ
node_len (gc n) = n.len
node_len (skip n) = n.len
node_len (item i) = item_len i

unfoldable pub is_gc : Node → Bool
is_gc (gc n) = true
is_gc _ = false

unfoldable pub is_skip : Node → Bool
is_skip (skip n) = true
is_skip _ = false

unfoldable pub is_item : Node → Bool
is_item (item i) = true
is_item _ = false

unfoldable pub as_item : Node → Option Item
as_item (item i) = some i
as_item _ = none

unfoldable pub node_left : Node → Option ItemId
node_left (item i) = i.left
node_left _ = none

unfoldable pub node_right : Node → Option ItemId
node_right (item i) = i.right
node_right _ = none

-- What is no item counts as deleted.
unfoldable pub flags : Node → ItemFlag
flags (item i) = i.flags
flags _ = 4

unfoldable pub node_deleted : Node → Bool
unfolding flags
node_deleted self = ItemFlag.deleted (flags self)

unfoldable pub node_countable : Node → Bool
unfolding flags
node_countable self = ItemFlag.countable (flags self)

unfoldable pub node_last_id : Node → Option ItemId
node_last_id (item i) = some (last_id i)
node_last_id _ = none

unfoldable pub node_split_at : Node → ℕ → JwstCodecResult (Node × Node)
node_split_at (item i) offset = and_then (split i.content offset) λ (left_content, right_content).
    ok (
      item (Item_new i.id left_content none none i.parent i.parent_sub),
      item (Item_new (id_add i.id offset) right_content none none i.parent i.parent_sub),
    )
node_split_at _ offset = err (raised item_split_not_support)

-- `ty.item = item.clone()`, where the content is a type that was not released.
abbrev pub own_type : ItemId → Content → Content
own_type id (ytype (some ty)) = ytype (some (record ty { item = some id }))
own_type id content = content

module _ ⦃c : Crates⦄ ⦃j : Json⦄ where
  unfoldable pub read_node : ItemId → Reader Node
  read_node id = read_info >>= λ info.
      let first_5_bit = bit_and info 0b11111 in
      if first_5_bit == 0
      then (read_u64 >>= λ len. pure (new_gc id len))
      else if first_5_bit == 10
      then (read_u64 >>= λ len. pure (new_skip id len))
      else (read_item id info first_5_bit >>= λ i.
          pure (item (record i { content = own_type id i.content })))

  unfoldable pub write_node : Bytes → Node → JwstCodecResult Bytes
  write_node writer (gc n) = ok (write_var_u64 (c.write_u8 writer 0) n.len)
  write_node writer (skip n) = ok (write_var_u64 (c.write_u8 writer 10) n.len)
  write_node writer (item i) = write_item writer i
