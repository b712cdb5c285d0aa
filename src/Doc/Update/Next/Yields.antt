-- ===== src/Doc/Update/Next/Yields.antt =====
-- What `UpdateIterator` hands out.
use octo_base.Base.{
  ℕ, zero, suc, ◌+◌, ◌-◌, ◌%◌, ◌^◌, ◌≤◌, ◌<◌, ◌≡◌, refl, sym, ◌∙◌, true, false, ◌||◌, Option, none,
  some, List, [], ◌∷◌, ltb, ◌==◌, Bool-cases, inl, inr, arith, leb, ==_iff, ◌⊎◌, leb→le,
}
use octo_base.Doc.Client.{ItemId, ClientMap, get}
use octo_base.Doc.StateVector.{StateVector, set_max, get_clock, contains}
use octo_base.Doc.Item.{Parent, item_id, type_ref, name}
use octo_base.Doc.Node.{Node, gc, skip, item, as_item, node_id, client, clock, node_len, is_skip}
use octo_base.Doc.Update.Next.{
  UpdateIterator, missing_id, parent_id, or_missing, next_client, update_missing_state, add_to_rest,
  drain_stack, add_stack_to_rest, get_missing_dep, pop_front, taken, take_from, candidate,
  next_candidate, Round, yielded, looked, turn_to, push_stack, reach, resolve, round, next_round,
  next_loop, next,
}

-- The id is one of the item's own client, or the state is past it.
abbrev pub HasId : StateVector → ℕ → Option ItemId → Type 0
HasId state own none = Unit {0}
HasId state own (some id) = (id.client ≡ own) ⊎ (id.clock < get_clock state id.client)

-- The item that the parent is, where it is one that an id names.
abbrev pub HasParent : StateVector → ℕ → Option Parent → Type 0
HasParent state own (some (item_id id)) = HasId state own (some id)
HasParent state own _ = Unit {0}

-- The state has both origins and the parent of an item; other nodes depend on nothing.
abbrev pub HasDependencies : StateVector → Node → Type 0
HasDependencies state (item it) =
    HasId state it.id.client it.origin_left_id
    × HasId state it.id.client it.origin_right_id
    × HasParent state it.id.client it.parent
HasDependencies state (gc n) = Unit {0}
HasDependencies state (skip n) = Unit {0}

-- A node, no skip, whose clock the state has reached, whose dependencies it has too, from the offset
-- where the state ends; that is within the node, or its start.
abbrev pub IsApplicable : StateVector → Node → ℕ → Type 0
IsApplicable state n offset =
    (is_skip n ≡ false)
    × (clock n + offset ≡ get_clock state (client n))
    × HasDependencies state n
    × ((offset ≡ 0) ⊎ (offset < node_len n))

missing_id-HasId :
    (state : StateVector) (own : ℕ) (o : Option ItemId)
    → missing_id state own o ≡ none
    → HasId state own o
unfolding missing_id
missing_id-HasId state own none e = tt
missing_id-HasId state own (some id) e = elim (Bool-cases (id.client == own)) [
  | inl mine ↦ inl ((==_iff _ _).0 mine)
  | inr other ↦ elim (Bool-cases (leb (get_clock state id.client) id.clock)) [
    | inl behind ↦ let found : some id.client ≡ none = rw (other, behind) at e in cc
    | inr past ↦ inr (ground (arith, past))
  ]
]

missing_id-HasParent :
    (state : StateVector) (own : ℕ) (o : Option Parent)
    → missing_id state own (parent_id o) ≡ none
    → HasParent state own o
missing_id-HasParent state own none e = tt
missing_id-HasParent state own (some (item_id id)) e = missing_id-HasId state own (some id) e
missing_id-HasParent state own (some (name str)) e = tt
missing_id-HasParent state own (some (type_ref ty)) e = tt

or_missing-none : (a b : Option ℕ) → or_missing a b ≡ none → (a ≡ none) × (b ≡ none)
or_missing-none none b e = (refl, e)
or_missing-none (some dep) b e = (cc, cc)

get_missing_dep-HasDependencies :
    (state : StateVector) (n : Node) → get_missing_dep state n ≡ none → HasDependencies state n
unfolding get_missing_dep as_item
get_missing_dep-HasDependencies state (gc n) e = tt
get_missing_dep-HasDependencies state (skip n) e = tt
get_missing_dep-HasDependencies state (item it) e =
    let own = it.id.client in
    let (left, later) = or_missing-none (missing_id state own it.origin_left_id) _ e in
    let (right, parent) = or_missing-none (missing_id state own it.origin_right_id) _ later in
    (
      missing_id-HasId state own it.origin_left_id left,
      missing_id-HasId state own it.origin_right_id right,
      missing_id-HasParent state own it.parent parent,
    )

state-taken :
    (self : UpdateIterator) (o : Option (Node × ClientMap (List Node)))
    → (taken self o).1.state ≡ self.state
state-taken self none = refl
state-taken self (some (n, structs)) = refl

state-take_from : (self : UpdateIterator) (o : Option ℕ) → (take_from self o).1.state ≡ self.state
state-take_from self none = refl
state-take_from self (some c) =
    state-taken self (pop_front self.update.structs c (get self.update.structs c))

state-candidate :
    (self : UpdateIterator) (stack : List Node) → (candidate self stack).1.state ≡ self.state
unfolding next_client
state-candidate self [] = state-take_from (next_client self) (next_client self).cur_client_id
state-candidate self (n ∷ stack) = refl

state-next_candidate : (self : UpdateIterator) → (next_candidate self).1.state ≡ self.state
unfolding next_candidate
state-next_candidate self = state-candidate self self.stack

state-drain_stack :
    (self : UpdateIterator) (stack : List Node) → (drain_stack self stack).state ≡ self.state
unfolding drain_stack add_to_rest
state-drain_stack self [] = refl
state-drain_stack self (s ∷ stack) = state-drain_stack self stack

state-add_stack_to_rest : (self : UpdateIterator) → (add_stack_to_rest self).state ≡ self.state
unfolding add_stack_to_rest
state-add_stack_to_rest self = state-drain_stack self self.stack

-- The candidate after the stack was given up, from the same state.
state-given_up :
    (self : UpdateIterator) (of_client at : ℕ)
    → (next_candidate (add_stack_to_rest (update_missing_state self of_client at))).1.state
      ≡ self.state
unfolding update_missing_state
state-given_up self of_client at =
    state-next_candidate (add_stack_to_rest (update_missing_state self of_client at))
    ∙ state-add_stack_to_rest (update_missing_state self of_client at)

-- A round hands out what can be applied, or leaves the state.
abbrev IsRound : StateVector → Round → Type 0
IsRound state (yielded n offset self) =
    IsApplicable state n offset
    × (self.state ≡ set_max state (client n) ((clock n + node_len n) % 2 ^ 64))
IsRound state (looked found) = found.1.state ≡ state

turn_to-IsRound :
    (self : UpdateIterator) (dep : ℕ) (o : Option (Node × ClientMap (List Node)))
    → IsRound self.state (turn_to self dep o)
turn_to-IsRound self dep none = state-given_up self dep (get_clock self.state dep)
turn_to-IsRound self dep (some (n, structs)) = refl

-- Every clock of the state is a u64.
abbrev pub AreClocks : StateVector → Type 0
AreClocks state = (c : ℕ) → get_clock state c < 2 ^ 64

resolve-IsRound :
    (self : UpdateIterator) (cur : Node) (o : Option ℕ)
    → AreClocks self.state
    → is_skip cur ≡ false
    → clock cur ≤ get_clock self.state (client cur)
    → get_missing_dep self.state cur ≡ o
    → IsRound self.state (resolve self cur o)
unfolding resolve reach
resolve-IsRound self cur (some dep) bound whole le e =
    turn_to-IsRound (push_stack self cur) dep
      (pop_front self.update.structs dep (get self.update.structs dep))
resolve-IsRound self cur none bound whole le e =
    let offset = (get_clock self.state (client cur) + 2 ^ 64 - clock cur) % 2 ^ 64 in
    elim (Bool-cases ((offset == 0) || ltb offset (node_len cur))) [
      | inl within ↦ rw within (
        (
          whole,
          omega (arith, le, bound (client cur)),
          get_missing_dep-HasDependencies self.state cur e,
          ground (arith, within),
        ),
        refl,
      )
      | inr past ↦ rw past (state-next_candidate self)
    ]

round-IsRound :
    (self : UpdateIterator) (cur : Node)
    → AreClocks self.state
    → IsRound self.state (round self cur)
unfolding round
round-IsRound self cur bound = elim (Bool-cases (is_skip cur)) [
  | inl skipped ↦ rw skipped (state-next_candidate self)
  | inr other ↦ elim (Bool-cases (contains self.state (node_id cur))) [
    | inl reached ↦
        rw (other, reached)
          (resolve-IsRound self cur (get_missing_dep self.state cur) bound other (contained reached)
            refl)
    | inr ahead ↦
        rw (other, ahead)
          (state-given_up (push_stack self cur) (client cur) ((clock cur + 2 ^ 64 - 1) % 2 ^ 64))
  ]
]
  where
    contained :
        contains self.state (node_id cur) ≡ true → clock cur ≤ get_clock self.state (client cur)
    contained reached = unfold contains in unfold clock in unfold client in leb→le _ _ reached

next_loop-IsApplicable :
    (fuel : ℕ) (found : Option Node × UpdateIterator) (n : Node) (offset : ℕ)
    (self' : UpdateIterator)
    → AreClocks found.1.state
    → next_loop fuel found ≡ some (some (n, offset), self')
    → IsApplicable found.1.state n offset
      × (self'.state ≡ set_max found.1.state (client n) ((clock n + node_len n) % 2 ^ 64))
unfolding next_loop
next_loop-IsApplicable zero found n offset self' bound e = cc
next_loop-IsApplicable (suc fuel) (none, self) n offset self' bound e = cc
next_loop-IsApplicable (suc fuel) (some cur, self) n offset self' bound e =
    by_round (round self cur) (round-IsRound self cur bound) e
      λ found h e'. next_loop-IsApplicable fuel found n offset self' h e'
  where
    by_round :
        (r : Round)
        → IsRound self.state r
        → next_round r (next_loop fuel) ≡ some (some (n, offset), self')
        → ((found : Option Node × UpdateIterator)
            → AreClocks found.1.state
            → next_loop fuel found ≡ some (some (n, offset), self')
            → IsApplicable found.1.state n offset
              × (self'.state ≡ set_max found.1.state (client n) ((clock n + node_len n) % 2 ^ 64)))
        → IsApplicable self.state n offset
          × (self'.state ≡ set_max self.state (client n) ((clock n + node_len n) % 2 ^ 64))
    by_round (yielded m at self'') h e later =
        let en : m ≡ n = cc in
        let ea : at ≡ offset = cc in let es : self'' ≡ self' = cc in rw (en, ea, es) at h
    by_round (looked found) h e later = (rw h at (later found (rw (sym h) at bound) e))

-- From a state whose clocks are u64 numbers, a node that the iterator hands out is no skip, the state has
-- reached its clock and, where it is an item, is past the origins and the parent that are ids of other
-- clients, the offset is the part of it that the state has, within it
-- or 0, and the state then reaches its end.
pub next-IsApplicable :
    (fuel : ℕ) (self self' : UpdateIterator) (n : Node) (offset : ℕ)
    → AreClocks self.state
    → next fuel self ≡ some (some (n, offset), self')
    → IsApplicable self.state n offset
      × (self'.state ≡ set_max self.state (client n) ((clock n + node_len n) % 2 ^ 64))
unfolding next
next-IsApplicable fuel self self' n offset bound e =
    let same = state-next_candidate self in
    rw same at
      (next_loop-IsApplicable fuel (next_candidate self) n offset self' (rw (sym same) at bound) e)
