-- ===== src/Doc/YType.antt =====
-- The kinds of shared types and the parts of `YType` that content carries, of
-- libs/jwst-codec/src/doc/types/mod.rs. A reference is `none` when the type behind it was released.
use octo_base.Base.{
  ℕ, List, [], ◌≡◌, Bool, true, false, Option, none, some, ◌==◌, if◌then◌else◌, arith,
}
use octo_base.Base.Assoc.{bytes_eq}
use octo_base.Base.Result.{ok, err}
use octo_base.Crates.{Bytes}
use octo_base.Doc.Error.{JwstCodecResult, panicked}
use octo_base.Doc.Client.{ItemId, id_eq}

pub data YTypeKind : Type 0 where
  array map text xml_element xml_fragment xml_hook xml_text unknown : YTypeKind

-- `From<u64> for YTypeKind`
unfoldable pub kind_from : ℕ → YTypeKind
kind_from value =
    if value == 0
    then array
    else if value == 1
    then map
    else if value == 2
    then text
    else if value == 3
    then xml_element
    else if value == 4
    then xml_fragment
    else if value == 5
    then xml_hook
    else if value == 6
    then xml_text
    else unknown

-- `From<YTypeKind> for u64`; `unreachable!()` is a panic.
unfoldable pub kind_to : YTypeKind → JwstCodecResult ℕ
kind_to array = ok 0
kind_to map = ok 1
kind_to text = ok 2
kind_to xml_element = ok 3
kind_to xml_fragment = ok 4
kind_to xml_hook = ok 5
kind_to xml_text = ok 6
kind_to unknown = err panicked

pub record YType : Type 0 where
  pub item : Option ItemId
  pub name : Option Bytes
  pub root_name : Option Bytes
  pub kind : YTypeKind

-- `YType::new`
unfoldable pub YType_new : YTypeKind → Option Bytes → YType
YType_new kind tag_name = record { item = none; name = tag_name; root_name = none; kind = kind }

abbrev pub YTypeRef : Type 0
YTypeRef = Option YType

-- `matches!(kind, XMLElement | XMLHook)`
abbrev pub has_tag : YTypeKind → Bool
has_tag xml_element = true
has_tag xml_hook = true
has_tag _ = false

-- The kind behind a number is the one that is written as that number.
pub kind_from-kind_to : (kind : YTypeKind) (n : ℕ) → kind_to kind ≡ ok n → kind_from n ≡ kind
unfolding kind_from kind_to
kind_from-kind_to array n h = ground arith
kind_from-kind_to map n h = ground arith
kind_from-kind_to text n h = ground arith
kind_from-kind_to xml_element n h = ground arith
kind_from-kind_to xml_fragment n h = ground arith
kind_from-kind_to xml_hook n h = ground arith
kind_from-kind_to xml_text n h = ground arith
kind_from-kind_to unknown n h = cc

-- What a shared type is known by: the item it belongs to, or its name in the store.
pub data TypeKey : Type 0 where
  of_item : ItemId → TypeKey
  of_name : Bytes → TypeKey

-- The part of a `YType` that every reference to it shares.
pub record TypeState : Type 0 where
  pub ty : YType
  pub start : Option ItemId
  pub map : List (Bytes × ItemId)
  pub len : ℕ

abbrev pub new_state : YType → TypeState
new_state ty = record { ty = ty; start = none; map = []; len = 0 }

abbrev pub root_key : Option Bytes → Option TypeKey
root_key none = none
root_key (some name) = some (of_name name)

abbrev pub key_by : Option ItemId → Option Bytes → Option TypeKey
key_by (some id) root_name = some (of_item id)
key_by none root_name = root_key root_name

unfoldable pub key_of : YType → Option TypeKey
key_of self = key_by self.item self.root_name

unfoldable pub key_eq : TypeKey → TypeKey → Bool
key_eq (of_item a) (of_item b) = id_eq a b
key_eq (of_name a) (of_name b) = bytes_eq a b
key_eq (of_item a) (of_name b) = false
key_eq (of_name a) (of_item b) = false
