-- ===== src/Doc/Store/Clocks.antt =====
-- The clocks of a client's nodes, and the state vector of a store.
use octo_base.Base.{
  ℕ, ◌+◌, ◌^◌, ◌<◌, ◌≡◌, ◌≢◌, refl, sym, ap, ◌∙◌, true, false, Option, none, some, List, [], ◌∷◌,
  ◌++◌, ◌==◌, if◌then◌else◌, Bool-cases, inl, inr, ==_iff, ==_refl, arith, ◌⊎◌,
}
use octo_base.Base.Result.{ok, err}
use octo_base.Doc.Error.{raised, struct_clock_invalid}
use octo_base.Doc.Client.{ClientMap, IsMap, get, insert, get-insert}
use octo_base.Doc.StateVector.{StateVector, get_clock, or_zero}
use octo_base.Doc.Node.{Node, client, clock, node_len}
use octo_base.Doc.Store.{
  DocStore, back, end_clock, end_of_last, state_of, get_state, insert_state, items_as_state_vector,
  get_state_vector, push_node, add_node, check_structs, check_all, self_check,
}

-- The nodes begin at `start`, each where the one before it ends, and the last ends below 2 ^ 64.
abbrev pub IsSequence : ℕ → List Node → Type 0
IsSequence start [] = start < 2 ^ 64
IsSequence start (n ∷ ns) =
    (clock n ≡ start) × (0 < node_len n) × IsSequence (start + node_len n) ns

unfoldable pub end_of : ℕ → List Node → ℕ
end_of start [] = start
end_of start (n ∷ ns) = end_of (start + node_len n) ns

IsSequence-bound : (ns : List Node) (start : ℕ) → IsSequence start ns → start < 2 ^ 64
IsSequence-bound [] start h = h
IsSequence-bound (n ∷ ns) start (e, pos, h) =
    omega (arith, IsSequence-bound ns (start + node_len n) h)

pub end_clock-IsSequence :
    (n : Node) (ns : List Node) (start : ℕ)
    → IsSequence start (n ∷ ns)
    → end_clock n ≡ start + node_len n
unfolding end_clock
end_clock-IsSequence n ns start (e, pos, h) =
    omega (arith, IsSequence-bound ns (start + node_len n) h)

pub end_of_last-IsSequence :
    (n : Node) (ns : List Node) (start : ℕ)
    → IsSequence start (n ∷ ns)
    → end_of_last (back (n ∷ ns)) ≡ end_of start (n ∷ ns)
unfolding end_of
end_of_last-IsSequence n [] start h = end_clock-IsSequence n [] start h
end_of_last-IsSequence n (m ∷ ns) start (e, pos, h) =
    end_of_last-IsSequence m ns (start + node_len n) h

IsSequence-snoc :
    (ns : List Node) (n : Node) (start : ℕ)
    → IsSequence start ns
    → clock n ≡ end_of start ns
    → 0 < node_len n
    → clock n + node_len n < 2 ^ 64
    → IsSequence start (ns ++ n ∷ [])
unfolding end_of
IsSequence-snoc [] n start h e pos fits = (e, pos, omega arith)
IsSequence-snoc (m ∷ ns) n start (em, pm, h) e pos fits =
    (em, pm, IsSequence-snoc ns n (start + node_len m) h e pos fits)

end_of-snoc :
    (ns : List Node) (n : Node) (start : ℕ)
    → end_of start (ns ++ n ∷ []) ≡ end_of start ns + node_len n
unfolding end_of
end_of-snoc [] n start = refl
end_of-snoc (m ∷ ns) n start = end_of-snoc ns n (start + node_len m)

-- A client's nodes follow on from some clock, and there is one.
abbrev pub AreNodes : List Node → Type 0
AreNodes [] = ⊥
AreNodes (n ∷ ns) = IsSequence (clock n) (n ∷ ns)

-- Every client's nodes follow on.
unfoldable pub IsStore : DocStore → Type 0
IsStore self = (c : ℕ) (ns : List Node) → get self.items c ≡ some ns → AreNodes ns

-- What follows `ns` follows on from its end, and makes the end.
push_node_lem :
    (o : Option (List Node)) (n : Node)
    → ((ns : List Node) → o ≡ some ns → AreNodes ns)
    → 0 < node_len n
    → clock n + node_len n < 2 ^ 64
    → ((ns : List Node) × (push_node o n ≡ ok ns)
        × AreNodes ns
        × (state_of (some ns) ≡ clock n + node_len n)
        × ((o ≡ none) ⊎ (state_of o ≡ clock n)))
      ⊎ ((push_node o n ≡ err (raised (struct_clock_invalid (state_of o) (clock n))))
          × (state_of o ≢ clock n))
unfolding push_node
push_node_lem none n h pos fits =
    inl (n ∷ [], refl, (refl, pos, fits), unfold end_clock in omega arith, inl refl)
push_node_lem (some []) n h pos fits = absurd (h [] refl)
push_node_lem (some (m ∷ ms)) n h pos fits =
    let seq = h (m ∷ ms) refl in
    let last = end_of_last-IsSequence m ms (clock m) seq in
    elim (Bool-cases (end_of_last (back (m ∷ ms)) == clock n)) [
      | inl same ↦
          let e : clock n ≡ end_of (clock m) (m ∷ ms) = sym ((==_iff _ _).0 same) ∙ last in
          let grown = IsSequence-snoc (m ∷ ms) n (clock m) seq e pos fits in
          rw same (
            inl (
              (m ∷ ms) ++ n ∷ [],
              refl,
              grown,
              end_of_last-IsSequence m (ms ++ n ∷ []) (clock m) grown
                  ∙ end_of-snoc (m ∷ ms) n (clock m)
                  ∙ omega (arith, e),
              inr ((==_iff _ _).0 same),
            ))
      | inr other ↦ rw other (inr (refl, λ e. absurd (unequal e other)))
    ]
  where
    unequal :
        end_of_last (back (m ∷ ms)) ≡ clock n → (end_of_last (back (m ∷ ms)) == clock n) ≡ false → ⊥
    unequal e other = ground (arith, (==_iff (end_of_last (back (m ∷ ms))) (clock n)).1 e)

-- Where every client's nodes follow on, a node of positive length that ends below 2 ^ 64 is either added,
-- as its client is new or its clock is that client's state, after which the nodes still follow on, the
-- state of its client is the node's end and that of the others is as before; or it is refused with the
-- expected clock and its own, which differ.
pub add_node-IsStore :
    (self : DocStore) (n : Node)
    → IsStore self
    → 0 < node_len n
    → clock n + node_len n < 2 ^ 64
    → ((self' : DocStore) × (add_node self n ≡ ok self')
        × IsStore self'
        × ((c : ℕ)
            → get_state self' c
              ≡ (if client n == c then clock n + node_len n else get_state self c))
        × ((get self.items (client n) ≡ none) ⊎ (get_state self (client n) ≡ clock n)))
      ⊎ ((add_node self n
            ≡ err (raised (struct_clock_invalid (get_state self (client n)) (clock n))))
          × (get_state self (client n) ≢ clock n))
unfolding add_node get_state IsStore
add_node-IsStore self n h pos fits =
    elim (push_node_lem (get self.items (client n)) n (h (client n)) pos fits) [
      | inl (ns, e, seq, ends, why) ↦ inl (
        record self { items = insert self.items (client n) ns },
        rw e refl,
        kept ns seq,
        state ns ends,
        why,
      )
      | inr (e, other) ↦ inr (rw e refl, other)
    ]
  where
    kept :
        (ns : List Node)
        → AreNodes ns
        → (c : ℕ) (ms : List Node) → get (insert self.items (client n) ns) c ≡ some ms
        → AreNodes ms
    kept ns seq c ms found = elim (Bool-cases (client n == c)) [
      | inl same ↦
          let e : some ns ≡ some ms =
            (rw same at (sym (get-insert self.items (client n) c ns) ∙ found)) in
          let e' : ns ≡ ms = cc in rw e' at seq
      | inr other ↦ h c ms (rw other at (sym (get-insert self.items (client n) c ns) ∙ found))
    ]

    state :
        (ns : List Node)
        → state_of (some ns) ≡ clock n + node_len n
        → (c : ℕ)
        → state_of (get (insert self.items (client n) ns) c)
          ≡ (if client n == c then clock n + node_len n else state_of (get self.items c))
    state ns ends c =
        rw (get-insert self.items (client n) c ns) (elim (Bool-cases (client n == c)) [
          | inl same ↦ rw same ends
          | inr other ↦ rw other refl
        ])

abbrev entry_of_last : Option Node → Option ℕ → Option ℕ
entry_of_last none before = before
entry_of_last (some n) before = some (end_clock n)

-- The state of a client that the state vector has.
abbrev entry_of : Option (List Node) → Option ℕ → Option ℕ
entry_of none before = before
entry_of (some structs) before = entry_of_last (back structs) before

items_as_state_vector_lem :
    (items : ClientMap (List Node)) (state : StateVector) (c : ℕ)
    → IsMap items
    → get (items_as_state_vector state items) c ≡ entry_of (get items c) (get state c)
unfolding items_as_state_vector get
items_as_state_vector_lem [] state c h = refl
items_as_state_vector_lem ((k, structs) ∷ rest) state c (fresh, h) =
    items_as_state_vector_lem rest (insert_state state k (back structs)) c h
    ∙ elim (Bool-cases (k == c)) [
      | inl same ↦ rw (same, rw ((==_iff k c).0 same) at fresh) (here (back structs) same)
      | inr other ↦ rw other (ap (entry_of (get rest c)) (there (back structs) other))
    ]
  where
    here :
        (last : Option Node)
        → (k == c) ≡ true
        → get (insert_state state k last) c ≡ entry_of_last last (get state c)
    here none same = refl
    here (some n) same = rw (get-insert state k c (end_clock n), same) refl

    there :
        (last : Option Node) → (k == c) ≡ false → get (insert_state state k last) c ≡ get state c
    there none other = refl
    there (some n) other = rw (get-insert state k c (end_clock n), other) refl

-- The state vector of a store, whose clients stand once each, has the state of every client.
pub get_clock-get_state_vector :
    (self : DocStore) (c : ℕ)
    → IsMap self.items
    → get_clock (get_state_vector self) c ≡ get_state self c
unfolding get_clock get_state_vector get_state get
get_clock-get_state_vector self c h =
    rw (items_as_state_vector_lem self.items [] c h) (of_entry (get self.items c))
  where
    of_entry : (o : Option (List Node)) → or_zero (entry_of o none) ≡ state_of o
    of_entry none = refl
    of_entry (some structs) = of_last (back structs)
      where
        of_last : (last : Option Node) → or_zero (entry_of_last last none) ≡ end_of_last last
        of_last none = refl
        of_last (some n) = refl

check_structs-IsSequence :
    (ns : List Node) (start : ℕ) → IsSequence start ns → check_structs ns ≡ ok tt
unfolding check_structs
check_structs-IsSequence [] start h = refl
check_structs-IsSequence (n ∷ []) start h = refl
check_structs-IsSequence (n ∷ m ∷ ms) start (e, pos, h) =
    rw (end_clock-IsSequence n (m ∷ ms) start (e, pos, h), h.0, ==_refl (start + node_len n))
      (check_structs-IsSequence (m ∷ ms) (start + node_len n) h)

check_structs-AreNodes : (ns : List Node) → AreNodes ns → check_structs ns ≡ ok tt
check_structs-AreNodes [] h = absurd h
check_structs-AreNodes (n ∷ ns) h = check_structs-IsSequence (n ∷ ns) (clock n) h

check_all_lem :
    (items : ClientMap (List Node))
    → IsMap items
    → ((c : ℕ) (ns : List Node) → get items c ≡ some ns → AreNodes ns)
    → check_all items ≡ ok tt
unfolding check_all get
check_all_lem [] h all = refl
check_all_lem ((k, structs) ∷ rest) (fresh, h) all =
    rw (check_structs-AreNodes structs (all k structs (rw (==_refl k) refl))) (
      check_all_lem rest h λ c ns found. all c ns (elim (Bool-cases (k == c)) [
        | inl same ↦ let e : none ≡ some ns = sym (rw ((==_iff k c).0 same) at fresh) ∙ found in cc
        | inr other ↦ rw other found
      ]))

-- A store whose clients stand once each, with nodes that follow on, passes its own check.
self_check-IsStore : (self : DocStore) → IsMap self.items → IsStore self → self_check self ≡ ok tt
unfolding self_check IsStore
self_check-IsStore self h all = check_all_lem self.items h all
