-- ===== src/Doc/Update/Next/Measure.antt =====
-- The work that `UpdateIterator` has left.
use octo_base.Base.{
  ℕ, zero, suc, ◌+◌, ◌-◌, ◌*◌, ◌%◌, ◌^◌, ◌≤◌, ◌<◌, ◌≡◌, refl, sym, ◌||◌, Option, none, some, List,
  [], ◌∷◌, length, ltb, ◌==◌, Bool-cases, inl, inr, arith,
}
use octo_base.Doc.Client.{ClientMap, get, insert, remove}
use octo_base.Doc.StateVector.{get_clock, contains}
use octo_base.Doc.Node.{Node, node_id, client, clock, node_len, is_skip}
use octo_base.Doc.Update.Next.{
  UpdateIterator, has_updates, next_client_from, next_client_of, next_client, update_missing_state,
  add_to_rest, drain_stack, add_stack_to_rest, get_missing_dep, pop_front, taken, take_from,
  candidate, next_candidate, Round, yielded, looked, turn_to, push_stack, resolve, round,
  next_round, next_loop, next,
}

-- The nodes of the updates that are left.
unfoldable pub nodes_left : ClientMap (List Node) → ℕ
nodes_left [] = 0
nodes_left ((c, ns) ∷ m) = length ns + nodes_left m

abbrev length_of : Option (List Node) → ℕ
length_of none = 0
length_of (some ns) = length ns

nodes_left-insert :
    (m : ClientMap (List Node)) (c : ℕ) (ns : List Node)
    → nodes_left (insert m c ns) + length_of (get m c) ≡ nodes_left m + length ns
unfolding nodes_left insert get
nodes_left-insert [] c ns = omega arith
nodes_left-insert ((j, ms) ∷ m) c ns = elim (Bool-cases (j == c)) [
  | inl same ↦ rw same (omega arith)
  | inr other ↦ rw other (omega (arith, nodes_left-insert m c ns))
]

nodes_left-remove : (m : ClientMap (List Node)) (c : ℕ) → nodes_left (remove m c) ≤ nodes_left m
unfolding nodes_left remove
nodes_left-remove [] c = omega arith
nodes_left-remove ((j, ms) ∷ m) c = elim (Bool-cases (j == c)) [
  | inl same ↦ rw same (omega arith)
  | inr other ↦ rw other (omega (arith, nodes_left-remove m c))
]

nodes_left-next_client_from :
    (m : ClientMap (List Node)) (c : ℕ) (cs : List ℕ)
    → nodes_left (next_client_from m c cs).0 ≤ nodes_left m
unfolding next_client_from
nodes_left-next_client_from m c [] = elim (Bool-cases (has_updates (get m c))) [
  | inl some_left ↦ rw some_left (omega arith)
  | inr drained ↦ rw drained (nodes_left-remove m c)
]
nodes_left-next_client_from m c (d ∷ cs) = elim (Bool-cases (has_updates (get m c))) [
  | inl some_left ↦ rw some_left (omega arith)
  | inr drained ↦
      rw drained
        (omega (arith, nodes_left-next_client_from (remove m c) d cs, nodes_left-remove m c))
]

nodes_left-next_client_of :
    (m : ClientMap (List Node)) (o : Option ℕ) (cs : List ℕ)
    → nodes_left (next_client_of m o cs).0 ≤ nodes_left m
nodes_left-next_client_of m none cs = omega arith
nodes_left-next_client_of m (some c) cs = nodes_left-next_client_from m c cs

-- What each round makes smaller: the nodes that are left count twice, as one moves to the stack.
unfoldable pub work : UpdateIterator → ℕ
unfolding nodes_left
work self = 2 * nodes_left self.update.structs + length self.stack

-- The candidate is one more.
abbrev work_of : Option Node × UpdateIterator → ℕ
work_of (none, self) = work self
work_of (some n, self) = suc (work self)

-- A node taken from the front leaves one less.
pop_front-shrinks :
    (m : ClientMap (List Node)) (c : ℕ) (o : Option (List Node)) (n : Node)
    (m' : ClientMap (List Node))
    → get m c ≡ o
    → pop_front m c o ≡ some (n, m')
    → suc (nodes_left m') ≡ nodes_left m
pop_front-shrinks m c none n m' e p = cc
pop_front-shrinks m c (some []) n m' e p = cc
pop_front-shrinks m c (some (k ∷ ks)) n m' e p =
    let q : insert m c ks ≡ m' = cc in
    let grown = nodes_left-insert m c ks in rw (sym q) (omega (arith, rw e at grown))

work-taken :
    (self : UpdateIterator) (o : Option (Node × ClientMap (List Node)))
    → ((n : Node) (m' : ClientMap (List Node))
        → o ≡ some (n, m')
        → suc (nodes_left m') ≡ nodes_left self.update.structs)
    → work_of (taken self o) ≤ work self
unfolding work
work-taken self none h = omega arith
work-taken self (some (n, m')) h = omega (arith, h n m' refl)

work-take_from : (self : UpdateIterator) (o : Option ℕ) → work_of (take_from self o) ≤ work self
work-take_from self none = omega arith
work-take_from self (some c) =
    work-taken self (pop_front self.update.structs c (get self.update.structs c))
      λ n m' e. pop_front-shrinks self.update.structs c (get self.update.structs c) n m' refl e

work-next_client : (self : UpdateIterator) → work (next_client self) ≤ work self
unfolding next_client work
work-next_client self =
    omega (arith, nodes_left-next_client_of self.update.structs self.cur_client_id self.client_ids)

work-candidate :
    (self : UpdateIterator) (stack : List Node)
    → self.stack ≡ stack
    → work_of (candidate self stack) ≤ work self
unfolding work
work-candidate self [] e = omega (
  arith,
  work-take_from (next_client self) (next_client self).cur_client_id,
  work-next_client self,
)
work-candidate self (n ∷ stack) e = rw e (omega arith)

work-next_candidate : (self : UpdateIterator) → work_of (next_candidate self) ≤ work self
unfolding next_candidate
work-next_candidate self = work-candidate self self.stack refl

nodes_left-drain_stack :
    (self : UpdateIterator) (stack : List Node)
    → nodes_left (drain_stack self stack).update.structs ≤ nodes_left self.update.structs
unfolding drain_stack add_to_rest
nodes_left-drain_stack self [] = omega arith
nodes_left-drain_stack self (s ∷ stack) = omega (
  arith,
  nodes_left-drain_stack self stack,
  nodes_left-remove (drain_stack self stack).update.structs (client s),
)

work-add_stack_to_rest :
    (self : UpdateIterator) (c at : ℕ)
    → work (add_stack_to_rest (update_missing_state self c at)) + length self.stack ≤ work self
unfolding add_stack_to_rest update_missing_state work
work-add_stack_to_rest self c at =
    omega (arith, nodes_left-drain_stack (update_missing_state self c at) self.stack)

-- Giving up the stack leaves none of it.
work-given_up :
    (self : UpdateIterator) (c at : ℕ)
    → work_of (next_candidate (add_stack_to_rest (update_missing_state self c at)))
        + length self.stack
      ≤ work self
work-given_up self c at = omega (
  arith,
  work-next_candidate (add_stack_to_rest (update_missing_state self c at)),
  work-add_stack_to_rest self c at,
)

-- After a round that hands out nothing there is less to do.
abbrev Shrinks : ℕ → Round → Type 0
Shrinks before (yielded n offset self) = Unit
Shrinks before (looked found) = work_of found ≤ before

-- The work with a node on the stack.
work-push_stack : (self : UpdateIterator) (n : Node) → work (push_stack self n) ≡ suc (work self)
unfolding work
work-push_stack self n = omega arith

turn_to-Shrinks :
    (self : UpdateIterator) (cur : Node) (dep : ℕ) (o : Option (Node × ClientMap (List Node)))
    → ((n : Node) (m' : ClientMap (List Node))
        → o ≡ some (n, m')
        → suc (nodes_left m') ≡ nodes_left self.update.structs)
    → Shrinks (work self) (turn_to (push_stack self cur) dep o)
turn_to-Shrinks self cur dep none h = omega (
  arith,
  work-given_up (push_stack self cur) dep (get_clock self.state dep),
  work-push_stack self cur,
)
turn_to-Shrinks self cur dep (some (n, m')) h = unfold work in omega (arith, h n m' refl)

resolve-Shrinks :
    (self : UpdateIterator) (cur : Node) (o : Option ℕ) → Shrinks (work self) (resolve self cur o)
unfolding resolve
resolve-Shrinks self cur (some dep) =
    turn_to-Shrinks self cur dep (pop_front self.update.structs dep (get self.update.structs dep))
      λ n m' e. pop_front-shrinks self.update.structs dep (get self.update.structs dep) n m' refl e
resolve-Shrinks self cur none = elim (Bool-cases ((offset == 0) || ltb offset (node_len cur))) [
  | inl within ↦ rw within tt
  | inr past ↦ rw past (work-next_candidate self)
]
  where
    offset : ℕ
    offset = (get_clock self.state (client cur) + 2 ^ 64 - clock cur) % 2 ^ 64

round-Shrinks : (self : UpdateIterator) (cur : Node) → Shrinks (work self) (round self cur)
unfolding round
round-Shrinks self cur = elim (Bool-cases (is_skip cur)) [
  | inl skip ↦ rw skip (work-next_candidate self)
  | inr other ↦ elim (Bool-cases (contains self.state (node_id cur))) [
    | inl reached ↦ rw (other, reached) (resolve-Shrinks self cur (get_missing_dep self.state cur))
    | inr ahead ↦
        rw (other, ahead)
          (omega (
            arith,
            work-push_stack self cur,
            work-given_up (push_stack self cur) (client cur) ((clock cur + 2 ^ 64 - 1) % 2 ^ 64),
          ))
  ]
]

-- The loop returns on fuel.
abbrev Returns : Option (Option (Node × ℕ) × UpdateIterator) → Type 0
Returns o = (found : Option (Node × ℕ)) × (self' : UpdateIterator) × (o ≡ some (found, self'))

next_loop-Returns :
    (fuel : ℕ) (found : Option Node × UpdateIterator)
    → work_of found < fuel
    → Returns (next_loop fuel found)
unfolding next_loop
next_loop-Returns zero found enough = absurd (omega arith)
next_loop-Returns (suc fuel) (none, self) enough = (none, self, refl)
next_loop-Returns (suc fuel) (some cur, self) enough =
    after (round self cur) (round-Shrinks self cur) λ found less. next_loop-Returns fuel found less
  where
    after :
        (r : Round)
        → Shrinks (work self) r
        → ((found : Option Node × UpdateIterator)
            → work_of found < fuel
            → Returns (next_loop fuel found))
        → Returns (next_round r (next_loop fuel))
    after (yielded n offset self') h later = (some (n, offset), self', refl)
    after (looked found) h later = later found (omega (arith, h, enough))

-- The iterator ends: fuel of twice the nodes that are left, with those on the stack and one more, gives a
-- result, a node or the end, whatever the updates depend on.
pub next-Returns :
    (fuel : ℕ) (self : UpdateIterator)
    → 2 * nodes_left self.update.structs + length self.stack < fuel
    → (found : Option (Node × ℕ)) × (self' : UpdateIterator) × (next fuel self
        ≡ some (found, self'))
unfolding next work
next-Returns fuel self enough =
    next_loop-Returns fuel (next_candidate self) (omega (arith, work-next_candidate self, enough))
