-- ===== src/Doc/Store/Integrate/Between.antt =====
-- An item of more than one clock, and the item that follows on it, among the conflicting ones.
use octo_base.Base.{
  ℕ, ◌+◌, ◌-◌, ◌%◌, ◌^◌, ◌<◌, ◌≡◌, ◌≢◌, refl, ◌∙◌, Bool, true, false, ◌&&◌, Option, some, [], ◌∷◌,
  ◌==◌, ltb, arith,
}
use octo_base.Doc.Client.{ItemId, id_eq, same_id}
use octo_base.Doc.Item.{Item, item_len, last_id}
use octo_base.Doc.Store.Integrate.{has_id, verdict, pass, conflict_loop}
use octo_base.Doc.Store.Integrate.Scan.{scan, IsRow, conflict_loop-scan}
use octo_base.Doc.Store.Integrate.Siblings.{verdict-head}

and_false : (a b : Bool) → b ≡ false → (a && b) ≡ false
and_false true b h = h
and_false false b h = refl

last_id-other :
    (h : Item) (id : ItemId)
    → h.id.clock + item_len h < 2 ^ 64
    → 1 < item_len h
    → id.clock ≢ h.id.clock + item_len h - 1
    → id_eq id (last_id h) ≡ false
unfolding last_id
last_id-other h id bound long differ =
    let last : (h.id.clock + item_len h + 2 ^ 64 - 1) % 2 ^ 64 ≡ h.id.clock + item_len h - 1 =
      omega (arith, bound, long) in
    let apart : (id.clock == (h.id.clock + item_len h + 2 ^ 64 - 1) % 2 ^ 64) ≡ false =
      rw last (ground (arith, differ)) in
    and_false (id.client == h.id.client) _ apart

-- The last id of the first item is the first id of neither.
verdict-last :
    (this h d : Item)
    → h.id.clock + item_len h < 2 ^ 64
    → 1 < item_len h
    → d.id.clock ≡ h.id.clock + item_len h
    → d.origin_left_id ≡ some (last_id h)
    → same_id this.origin_left_id (some (last_id h)) ≡ false
    → verdict this (d.id ∷ []) (d.id ∷ h.id ∷ []) d ≡ pass
unfolding verdict has_id
verdict-last this h d bound long next origin other =
    rw
      (
        origin,
        other,
        last_id-other h d.id bound long (omega (arith, long, next)),
        last_id-other h h.id bound long (omega (arith, long)),
      )
      refl

-- Where the first conflicting item has the new item's origins, a client below its client and more than one
-- clock, its clocks are u64 numbers, and the item of its next clocks, which follows on its last one, is the
-- only one behind it up to the right one, the loop ends, on any fuel above 2, with the first one as the left
-- neighbour: the new item is put between the two.
pub conflict_loop_splits_run :
    (find : ItemId → Option Item) (this h d : Item) (right left from : Option ItemId) (fuel : ℕ)
    → 2 < fuel
    → h.origin_left_id ≡ this.origin_left_id
    → h.origin_right_id ≡ this.origin_right_id
    → ltb h.id.client this.id.client ≡ true
    → h.id.clock + item_len h < 2 ^ 64
    → 1 < item_len h
    → d.id.clock ≡ h.id.clock + item_len h
    → d.origin_left_id ≡ some (last_id h)
    → same_id this.origin_left_id (some (last_id h)) ≡ false
    → IsRow find from (h ∷ d ∷ []) right
    → conflict_loop fuel find this right from left [] [] ≡ some (some h.id)
unfolding scan
conflict_loop_splits_run find this h d right left from fuel enough l r lower bound long next origin
      other row =
    conflict_loop-scan find this right fuel (h ∷ d ∷ []) left from enough row
    ∙ rw
        (
          verdict-head this h (h.id ∷ []) (h.id ∷ []) l r,
          lower,
          verdict-last this h d bound long next origin other,
        )
        refl
