-- ===== src/Doc/Update/Next.antt =====
-- `UpdateIterator` of libs/jwst-codec/src/doc/codec/update.rs. The end of a `Vec` that is pushed to and
-- popped from is the head of its list.
pub mod Measure
pub mod Yields
use octo_base.Base.{
  ℕ, zero, suc, ◌+◌, ◌-◌, ◌%◌, ◌^◌, Bool, true, false, not, ◌&&◌, ◌||◌, Option, none, some, List,
  [], ◌∷◌, ◌++◌, map, ltb, leb, ◌==◌, if◌then◌else◌,
}
use octo_base.Doc.Client.{ItemId, ClientMap, get, insert, remove}
use octo_base.Doc.StateVector.{StateVector, set_max, set_min, get_clock, contains}
use octo_base.Doc.DeleteSet.{sort_descending}
use octo_base.Doc.Item.{Item, Parent, item_id}
use octo_base.Doc.Node.{Node, node_id, client, clock, node_len, is_skip, as_item}
use octo_base.Doc.Update.{Update}

pub record UpdateIterator : Type 0 where
  pub update : Update
  pub state : StateVector
  pub client_ids : List ℕ
  pub cur_client_id : Option ℕ
  pub stack : List Node

abbrev pop_client : List ℕ → Option ℕ × List ℕ
pop_client [] = (none, [])
pop_client (c ∷ cs) = (some c, cs)

-- `UpdateIterator::new`
unfoldable pub UpdateIterator_new : Update → StateVector → UpdateIterator
UpdateIterator_new update state =
    let client_ids = sort_descending (map (λ e. e.0) update.structs) in
    record {
      update = update;
      state = state;
      client_ids = (pop_client client_ids).1;
      cur_client_id = (pop_client client_ids).0;
      stack = [];
    }

-- `Some(refs) if !refs.is_empty()`
abbrev pub has_updates : Option (List Node) → Bool
has_updates none = false
has_updates (some []) = false
has_updates (some (n ∷ ns)) = true

-- The loop of `next_client` from a client on: the structs that are left, the client and those after it.
unfoldable pub next_client_from :
    ClientMap (List Node) → ℕ → List ℕ → ClientMap (List Node) × Option ℕ × List ℕ
next_client_from structs client_id [] =
    if has_updates (get structs client_id)
    then (structs, some client_id, [])
    else (remove structs client_id, none, [])
next_client_from structs client_id (c ∷ cs) =
    let later = next_client_from (remove structs client_id) c cs in
    if has_updates (get structs client_id) then (structs, some client_id, c ∷ cs) else later

abbrev pub next_client_of :
    ClientMap (List Node) → Option ℕ → List ℕ → ClientMap (List Node) × Option ℕ × List ℕ
next_client_of structs none client_ids = (structs, none, client_ids)
next_client_of structs (some client_id) client_ids = next_client_from structs client_id client_ids

-- Its result is the current client.
unfoldable pub next_client : UpdateIterator → UpdateIterator
unfolding next_client_from
next_client self =
    let (structs, cur, ids) =
      next_client_of self.update.structs self.cur_client_id self.client_ids in
    record self {
      update = record self.update { structs = structs };
      cur_client_id = cur;
      client_ids = ids;
    }

unfoldable pub update_missing_state : UpdateIterator → ℕ → ℕ → UpdateIterator
update_missing_state self of_client at = record self {
  update = record self.update { missing_state = set_min self.update.missing_state of_client at };
}

abbrev with_front : Node → Option (List Node) → List Node
with_front s none = s ∷ []
with_front s (some items) = s ∷ items

-- `client_ids.retain(|&c| c != client)`
unfoldable retain : ℕ → List ℕ → List ℕ
retain of_client [] = []
retain of_client (c ∷ cs) = if c == of_client then retain of_client cs else c ∷ retain of_client cs

-- A round of `add_stack_to_rest`.
unfoldable pub add_to_rest : UpdateIterator → Node → UpdateIterator
unfolding retain
add_to_rest self s = record self {
  update = record self.update {
    pending_structs =
        insert self.update.pending_structs (client s)
          (with_front s (get self.update.structs (client s)));
    structs = remove self.update.structs (client s);
  };
  client_ids = retain (client s) self.client_ids;
}

-- The rounds, from the bottom of the stack up.
unfoldable pub drain_stack : UpdateIterator → List Node → UpdateIterator
unfolding add_to_rest
drain_stack self [] = self
drain_stack self (s ∷ stack) = add_to_rest (drain_stack self stack) s

unfoldable pub add_stack_to_rest : UpdateIterator → UpdateIterator
unfolding drain_stack
add_stack_to_rest self = record (drain_stack self self.stack) { stack = [] }

-- The client of an id of another client that the state has not reached.
unfoldable pub missing_id : StateVector → ℕ → Option ItemId → Option ℕ
missing_id state own none = none
missing_id state own (some id) =
    if not (id.client == own) && leb (get_clock state id.client) id.clock
    then some id.client
    else none

abbrev pub parent_id : Option Parent → Option ItemId
parent_id (some (item_id id)) = some id
parent_id _ = none

abbrev pub or_missing : Option ℕ → Option ℕ → Option ℕ
or_missing (some dep) later = some dep
or_missing none later = later

abbrev missing_of : StateVector → Option Item → Option ℕ
missing_of state none = none
missing_of state (some item) = or_missing (missing_id state item.id.client item.origin_left_id) (
    or_missing (missing_id state item.id.client item.origin_right_id)
      (missing_id state item.id.client (parent_id item.parent)))

unfoldable pub get_missing_dep : StateVector → Node → Option ℕ
unfolding missing_id
get_missing_dep state struct_info = missing_of state (as_item struct_info)

-- `structs.get_mut(&client)` and `pop_front`
abbrev pub pop_front :
    ClientMap (List Node) → ℕ → Option (List Node) → Option (Node × ClientMap (List Node))
pop_front structs of_client (some (n ∷ ns)) = some (n, insert structs of_client ns)
pop_front structs of_client _ = none

abbrev pub with_structs : UpdateIterator → ClientMap (List Node) → UpdateIterator
with_structs self structs = record self { update = record self.update { structs = structs } }

-- The candidate, and what is left; a client that `next_client` tells has structs.
abbrev pub taken :
    UpdateIterator → Option (Node × ClientMap (List Node)) → Option Node × UpdateIterator
taken self none = (none, self)
taken self (some (n, structs)) = (some n, with_structs self structs)

abbrev pub take_from : UpdateIterator → Option ℕ → Option Node × UpdateIterator
take_from self none = (none, self)
take_from self (some c) = taken self (pop_front self.update.structs c (get self.update.structs c))

abbrev pub candidate : UpdateIterator → List Node → Option Node × UpdateIterator
candidate self (n ∷ stack) = (some n, record self { stack = stack })
candidate self [] = take_from (next_client self) (next_client self).cur_client_id

unfoldable pub next_candidate : UpdateIterator → Option Node × UpdateIterator
unfolding next_client
next_candidate self = candidate self self.stack

-- What a round of `next` comes to: a node to apply from an offset on, or the next candidate.
pub data Round : Type 0 where
  yielded : Node → ℕ → UpdateIterator → Round
  looked : Option Node × UpdateIterator → Round

abbrev pub push_stack : UpdateIterator → Node → UpdateIterator
push_stack self n = record self { stack = n ∷ self.stack }

-- The dependency comes first, where it has updates left.
abbrev pub turn_to : UpdateIterator → ℕ → Option (Node × ClientMap (List Node)) → Round
turn_to self dep (some (n, structs)) = looked (some n, with_structs self structs)
turn_to self dep none =
    looked (
      next_candidate (add_stack_to_rest (update_missing_state self dep (get_clock self.state dep))))

-- `self.state.set_max(id.client, id.clock + cur_update.len())`
unfoldable pub reach : UpdateIterator → Node → UpdateIterator
reach self n = record self {
  state = set_max self.state (client n) ((clock n + node_len n) % 2 ^ 64);
}

unfoldable pub resolve : UpdateIterator → Node → Option ℕ → Round
unfolding reach next_candidate add_stack_to_rest update_missing_state
resolve self cur (some dep) =
    turn_to (push_stack self cur) dep
      (pop_front self.update.structs dep (get self.update.structs dep))
resolve self cur none =
    let offset = (get_clock self.state (client cur) + 2 ^ 64 - clock cur) % 2 ^ 64 in
    if (offset == 0) || ltb offset (node_len cur)
    then yielded cur offset (reach self cur)
    else looked (next_candidate self)

unfoldable pub round : UpdateIterator → Node → Round
unfolding resolve get_missing_dep next_candidate add_stack_to_rest update_missing_state
round self cur =
    if is_skip cur
    then looked (next_candidate self)
    else if not (contains self.state (node_id cur))
    then looked (
        next_candidate (
          add_stack_to_rest (
            update_missing_state (push_stack self cur) (client cur)
              ((clock cur + 2 ^ 64 - 1) % 2 ^ 64))))
    else resolve self cur (get_missing_dep self.state cur)

abbrev pub next_round :
    Round
    → (Option Node × UpdateIterator → Option (Option (Node × ℕ) × UpdateIterator))
    → Option (Option (Node × ℕ) × UpdateIterator)
next_round (yielded n offset self) next = some (some (n, offset), self)
next_round (looked found) next = next found

-- The `while` loop of `next`; the outer `none` is fuel that ran out.
unfoldable pub next_loop :
    ℕ → Option Node × UpdateIterator → Option (Option (Node × ℕ) × UpdateIterator)
next_loop zero found = none
next_loop (suc fuel) (none, self) = some (none, self)
next_loop (suc fuel) (some cur, self) = next_round (round self cur) (next_loop fuel)

unfoldable pub next : ℕ → UpdateIterator → Option (Option (Node × ℕ) × UpdateIterator)
unfolding next_loop round
next fuel self = next_loop fuel (next_candidate self)
