-- ===== src/Doc/Item.antt =====
-- `Item` of libs/jwst-codec/src/doc/codec/item.rs. An item that another refers to is known by its id,
-- which is also what the source compares items by.
use octo_base.Base.{
  ℕ, ◌+◌, ◌-◌, ◌%◌, ◌^◌, bit_and, bit_or, Bool, true, false, not, ◌&&◌, ◌||◌, Option, none, some,
  ◌==◌, if◌then◌else◌,
}
use octo_base.Base.Result.{ok, err, ◌>>=◌ as and_then}
use octo_base.Crates.{Crates, Bytes}
use octo_base.Codec.Integer.{write_var_u64}
use octo_base.Codec.Buffer.{write_var_string}
use octo_base.Doc.Error.{JwstCodecResult, raised, parent_not_found}
use octo_base.Doc.Client.{ItemId, id_add}
use octo_base.Doc.Io.{Reader, pure, ◌>>=◌, read_u64, read_string, read_item_id, write_item_id}
use octo_base.Doc.ItemFlag
use octo_base.Doc.ItemFlag.{
  ItemFlag, item_countable, check, check_not, set_countable, set_deleted, set_keep,
}
use octo_base.Doc.YType.{YTypeRef}
use octo_base.Doc.Content.{
  Content, Json, deleted, get_info, countable, clock_len, split, read_content, write_content,
}

pub data Parent : Type 0 where
  type_ref : YTypeRef → Parent
  name : Bytes → Parent
  item_id : ItemId → Parent

pub record Item : Type 0 where
  pub id : ItemId
  pub origin_left_id : Option ItemId
  pub origin_right_id : Option ItemId
  pub left : Option ItemId
  pub right : Option ItemId
  pub parent : Option Parent
  pub parent_sub : Option Bytes
  pub content : Content
  pub flags : ItemFlag

abbrev pub is_some {ℓ} : {A : Type ℓ} → Option A → Bool
is_some none = false
is_some (some a) = true

unfoldable pub item_len : Item → ℕ
item_len self = clock_len self.content

-- `clock + self.len() - 1`, on u64.
unfoldable pub last_id : Item → ItemId
last_id self = record self.id { clock = (self.id.clock + item_len self + 2 ^ 64 - 1) % 2 ^ 64 }

abbrev pub last_id_of : Option Item → Option ItemId
last_id_of none = none
last_id_of (some item) = some (last_id item)

abbrev pub id_of : Option Item → Option ItemId
id_of none = none
id_of (some item) = some item.id

-- `Item::new`
unfoldable pub Item_new :
    ItemId → Content → Option Item → Option Item → Option Parent → Option Bytes → Item
Item_new id content left right parent parent_sub = record {
  id = id;
  origin_left_id = last_id_of left;
  origin_right_id = id_of right;
  left = id_of left;
  right = id_of right;
  parent = parent;
  parent_sub = parent_sub;
  content = content;
  flags = if countable content then item_countable else 0;
}

unfoldable pub item_deleted : Item → Bool
item_deleted self = ItemFlag.deleted self.flags

-- `Item::delete`: whether the item was not deleted before.
unfoldable pub delete_item : Item → Item × Bool
delete_item self =
    if ItemFlag.deleted self.flags
    then (self, false)
    else (record self { flags = set_deleted self.flags }, true)

unfoldable pub indexable : Item → Bool
indexable self = ItemFlag.countable self.flags && not (ItemFlag.deleted self.flags)

-- The end of `split_at`: `left_item.deleted()` and `left_item.keep()` are those of the new item.
unfoldable pub keep_flags : Item → Item
keep_flags left_item =
    let item =
      if ItemFlag.deleted left_item.flags
      then record left_item { flags = set_deleted left_item.flags }
      else left_item in
    if ItemFlag.keep item.flags then record item { flags = set_keep item.flags } else item

unfoldable pub split_at : Item → ℕ → JwstCodecResult (Item × Item)
unfolding keep_flags
split_at self offset = and_then (split self.content offset) λ (left_content, right_content). ok (
  keep_flags (Item_new self.id left_content none none self.parent self.parent_sub),
  Item_new (id_add self.id offset) right_content none none self.parent self.parent_sub,
)

-- The bits of the info byte: `ITEM_HAS_LEFT_ID`, `ITEM_HAS_RIGHT_ID`, `ITEM_HAS_PARENT_SUB` and
-- `ITEM_HAS_SIBLING`.
abbrev pub has_left_id : ℕ
has_left_id = 0b1000_0000

abbrev pub has_right_id : ℕ
has_right_id = 0b0100_0000

abbrev pub has_parent_sub : ℕ
has_parent_sub = 0b0010_0000

abbrev pub has_sibling : ℕ
has_sibling = 0b1100_0000

-- The info byte by the kind of the content, and whether there are a left id, a right id and a key.
unfoldable pub info_of : ℕ → Bool → Bool → Bool → ℕ
info_of info left right sub =
    let info' = if left then bit_or info has_left_id else info in
    let info'' = if right then bit_or info' has_right_id else info' in
    if sub then bit_or info'' has_parent_sub else info''

unfoldable pub item_info : Item → ℕ
unfolding info_of
item_info self =
    info_of (get_info self.content) (is_some self.origin_left_id) (is_some self.origin_right_id)
      (is_some self.parent_sub)

unfoldable pub is_valid : Item → Bool
is_valid self =
    let has_id = is_some self.origin_left_id || is_some self.origin_right_id in
    (not has_id && is_some self.parent)
    || (has_id && (not (is_some self.parent) && not (is_some self.parent_sub)))

abbrev pub is_deleted_content : Content → Bool
is_deleted_content (deleted len) = true
is_deleted_content _ = false

-- The flags of an item that was read.
abbrev pub read_flags : Content → ItemFlag
read_flags content =
    let counted = if countable content then set_countable 0 else 0 in
    if is_deleted_content content then set_deleted counted else counted

-- The result of reading if a bit is set.
abbrev pub read_if {ℓ} : {A : Type ℓ} → Bool → Reader A → Reader (Option A)
read_if false m = pure none
read_if true m = m >>= λ a. pure (some a)

module _ ⦃c : Crates⦄ ⦃j : Json⦄ where
  unfoldable pub read_parent : Reader Parent
  read_parent = read_u64 >>= λ has_parent.
      if has_parent == 1
      then (read_string >>= λ str. pure (name str))
      else (read_item_id >>= λ id. pure (item_id id))

  unfoldable pub read_item : ItemId → ℕ → ℕ → Reader Item
  read_item id info first_5_bit =
      let flags = info in
      let not_sibling = check_not flags has_sibling in
      read_if (check flags has_left_id) read_item_id >>= λ origin_left_id.
      read_if (check flags has_right_id) read_item_id >>= λ origin_right_id.
      read_if not_sibling read_parent >>= λ parent.
      read_if (not_sibling && check flags has_parent_sub) read_string >>= λ parent_sub.
      read_content first_5_bit >>= λ content. pure (record {
        id = id;
        origin_left_id = origin_left_id;
        origin_right_id = origin_right_id;
        left = none;
        right = none;
        parent = parent;
        parent_sub = parent_sub;
        content = content;
        flags = read_flags content;
      })

  abbrev pub write_id : Bytes → Option ItemId → Bytes
  write_id encoder none = encoder
  write_id encoder (some id) = write_item_id encoder id

  -- The parent of a type: the item that it belongs to, or else its name; a type that has neither, or
  -- that was released, is not written.
  unfoldable pub write_type_parent : Bytes → Option ItemId → Option Bytes → Bytes
  write_type_parent encoder (some item) root_name = write_item_id (write_var_u64 encoder 0) item
  write_type_parent encoder none (some root_name) =
      write_var_string (write_var_u64 encoder 1) root_name
  write_type_parent encoder none none = encoder

  unfoldable pub write_parent : Bytes → Option Parent → JwstCodecResult Bytes
  unfolding write_type_parent
  write_parent encoder none = err (raised parent_not_found)
  write_parent encoder (some (name str)) = ok (write_var_string (write_var_u64 encoder 1) str)
  write_parent encoder (some (item_id id)) = ok (write_item_id (write_var_u64 encoder 0) id)
  write_parent encoder (some (type_ref none)) = ok encoder
  write_parent encoder (some (type_ref (some ty))) =
      ok (write_type_parent encoder ty.item ty.root_name)

  abbrev pub write_sub : Bytes → Option Bytes → Bytes
  write_sub encoder none = encoder
  write_sub encoder (some parent_sub) = write_var_string encoder parent_sub

  unfoldable pub write_item : Bytes → Item → JwstCodecResult Bytes
  write_item encoder self =
      let info = item_info self in
      let ids =
        write_id (write_id (c.write_u8 encoder info) self.origin_left_id) self.origin_right_id in
      let with_parent =
        if bit_and info has_sibling == 0
        then and_then (write_parent ids self.parent) (λ e. ok (write_sub e self.parent_sub))
        else ok ids in
      and_then with_parent λ e. write_content e self.content
