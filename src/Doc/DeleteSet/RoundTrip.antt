-- ===== src/Doc/DeleteSet/RoundTrip.antt =====
-- A delete set that was written reads back.
use octo_base.Base.{
  ℕ, suc, ◌+◌, ◌-◌, ◌%◌, ◌^◌, ◌<◌, ◌≡◌, refl, sym, ◌∙◌, ap, Bool, true, false, List, [], ◌∷◌, ◌++◌,
  append_assoc, append-nil, length, All, arith, lt→ltb, ◌==◌, if◌then◌else◌,
}
use octo_base.Base.Result.{ok}
use octo_base.Crates.{Crates, Bytes}
use octo_base.Codec.Integer.{write_var_u64}
use octo_base.Codec.Integer.Spec.{IsU64}
use octo_base.Codec.Integer.RoundTrip.{varint, write_var_u64-varint}
use octo_base.Doc.Client.{get, insert_all}
use octo_base.Doc.OrderRange.{Range, OrderRange, range, fragment, make_single}
use octo_base.Doc.Io.{RawDecoder_new, read_u64, read_times, read_entries, pure, ◌>>=◌}
use octo_base.Doc.Io.Reads.{
  Reads, Reads-bind, Reads-map, Reads-u64, Reads-times, Reads-subst, Reads-entries, concat_map,
  between,
}
use octo_base.Doc.DeleteSet.Clients.{
  Present, clients-Present, clients_complete, length-clients, entries, map_entry, get-entries,
  length-entries, All-entries, has,
}
use octo_base.Doc.DeleteSet.{
  DeleteSet, sort_descending, keys, read_range, write_range, read_ranges, read_order_range,
  write_ranges, write_order_range, read_deletes, read, write_entry, write_clients, write,
}

abbrev pub IsU64Range : Range → Type 0
IsU64Range r = IsU64 r.start × IsU64 r.end

-- The bounds of the ranges are u64, and their number is one that a `VecDeque` can hold.
abbrev pub IsU64OrderRange : OrderRange → Type 0
IsU64OrderRange (range r) = IsU64Range r
IsU64OrderRange (fragment rs) = All IsU64Range rs × (length rs < 2 ^ 59)

module _ ⦃c : Crates⦄ where
  abbrev range_bytes : Range → Bytes
  range_bytes r = varint r.start ++ varint ((r.end + 2 ^ 64 - r.start) % 2 ^ 64)

  write_range_bytes :
      (encoder : Bytes) (r : Range) → write_range encoder r ≡ encoder ++ range_bytes r
  unfolding write_range
  write_range_bytes encoder r =
      let len = (r.end + 2 ^ 64 - r.start) % 2 ^ 64 in
      rw (
        write_var_u64-varint (write_var_u64 encoder r.start) len,
        write_var_u64-varint encoder r.start,
        append_assoc encoder (varint r.start) (varint len),
      )

  -- The end is written as a length, and added to the start again, both modulo 2 ^ 64.
  Reads-range : (r : Range) → IsU64Range r → Reads read_range (range_bytes r) r
  unfolding read_range
  Reads-range r (hs, he) front rest =
      let len = (r.end + 2 ^ 64 - r.start) % 2 ^ 64 in
      let back : (r.start + len) % 2 ^ 64 ≡ r.end = omega arith in
      Reads-bind read_u64 _ (varint r.start) (varint len) r.start (Reads-u64 r.start hs)
        (Reads-map read_u64 (λ n. record { start = r.start; end = (r.start + n) % 2 ^ 64 })
          (varint len) len (Reads-u64 len (omega arith)))
        front rest
      ∙ ap (λ e. ok (record { start = r.start; end = e }, between (front ++ range_bytes r) rest))
          back

  write_ranges_bytes :
      (rs : List Range) (encoder : Bytes)
      → write_ranges encoder rs ≡ encoder ++ concat_map range_bytes rs
  unfolding write_ranges
  write_ranges_bytes [] encoder = rw append-nil
  write_ranges_bytes (r ∷ rs) encoder = rw (
    write_ranges_bytes rs (write_range encoder r),
    write_range_bytes encoder r,
    append_assoc encoder (range_bytes r) (concat_map range_bytes rs),
  )

  abbrev order_range_bytes : OrderRange → Bytes
  order_range_bytes (range r) = varint 1 ++ range_bytes r
  order_range_bytes (fragment rs) = varint (length rs) ++ concat_map range_bytes rs

  write_order_range_bytes :
      (encoder : Bytes) (r : OrderRange)
      → write_order_range encoder r ≡ encoder ++ order_range_bytes r
  unfolding write_order_range
  write_order_range_bytes encoder (range r) = rw (
    write_range_bytes (write_var_u64 encoder 1) r,
    write_var_u64-varint encoder 1,
    append_assoc encoder (varint 1) (range_bytes r),
  )
  write_order_range_bytes encoder (fragment rs) = rw (
    write_ranges_bytes rs (write_var_u64 encoder (length rs)),
    write_var_u64-varint encoder (length rs),
    append_assoc encoder (varint (length rs)) (concat_map range_bytes rs),
  )

  -- A fragment of one range reads back as a range.
  unfoldable pub normal : OrderRange → OrderRange
  normal (range r) = range r
  normal (fragment rs) = make_single rs

  read_ranges_many :
      (n : ℕ)
      → 1 < n
      → n < 2 ^ 59
      → read_ranges n ≡ (read_times read_range n >>= λ deletes. pure (fragment deletes))
  unfolding read_ranges
  read_ranges_many n lo hi =
      let several : (n == 1) ≡ false = ground arith in rw (several, lt→ltb n (2 ^ 59) hi)

  Reads-fragment :
      (rs : List Range)
      → IsU64OrderRange (fragment rs)
      → Reads (read_ranges (length rs)) (concat_map range_bytes rs) (make_single rs)
  unfolding read_ranges make_single
  Reads-fragment [] h =
      Reads-map (read_times read_range 0) fragment [] []
        (Reads-times read_range range_bytes IsU64Range Reads-range [] tt)
  Reads-fragment (r ∷ []) ((h, _), _) =
      Reads-subst (read_range >>= λ x. pure (range x)) (range_bytes r) (range_bytes r ++ [])
        (range r) (sym (append-nil (range_bytes r)))
        (Reads-map read_range range (range_bytes r) r (Reads-range r h))
  Reads-fragment (r ∷ q ∷ rs) (h, lt) =
      rw (read_ranges_many (suc (suc (length rs))) (omega arith) lt) (
        Reads-map (read_times read_range (suc (suc (length rs)))) fragment
          (concat_map range_bytes (r ∷ q ∷ rs)) (r ∷ q ∷ rs)
          (Reads-times read_range range_bytes IsU64Range Reads-range (r ∷ q ∷ rs) h))

  Reads-order_range :
      (r : OrderRange) → IsU64OrderRange r → Reads read_order_range (order_range_bytes r) (normal r)
  unfolding read_order_range normal
  Reads-order_range (range r) h =
      Reads-bind read_u64 read_ranges (varint 1) (range_bytes r) 1 (Reads-u64 1 (omega arith))
        (unfold read_ranges in Reads-map read_range range (range_bytes r) r (Reads-range r h))
  Reads-order_range (fragment rs) h =
      Reads-bind read_u64 read_ranges (varint (length rs)) (concat_map range_bytes rs) (length rs)
        (Reads-u64 (length rs) (omega arith)) (Reads-fragment rs h)

  -- The bytes do not tell the two apart.
  order_range_bytes-normal : (r : OrderRange) → order_range_bytes (normal r) ≡ order_range_bytes r
  unfolding normal make_single
  order_range_bytes-normal (range r) = refl
  order_range_bytes-normal (fragment []) = refl
  order_range_bytes-normal (fragment (r ∷ [])) = rw append-nil
  order_range_bytes-normal (fragment (r ∷ q ∷ rs)) = refl

  abbrev deletes_bytes : ℕ × OrderRange → Bytes
  deletes_bytes (client, r) = varint client ++ order_range_bytes r

  -- Reading leaves such an entry as it is.
  abbrev IsNormalEntry : ℕ × OrderRange → Type 0
  IsNormalEntry (client, r) = IsU64 client × IsU64OrderRange r × (normal r ≡ r)

  Reads-deletes : (e : ℕ × OrderRange) → IsNormalEntry e → Reads read_deletes (deletes_bytes e) e
  unfolding read_deletes
  Reads-deletes (client, r) (hc, hr, same) =
      Reads-bind read_u64 (λ x. read_order_range >>= λ y. pure (x, y)) (varint client)
        (order_range_bytes r) client (Reads-u64 client hc)
        (Reads-map read_order_range (λ y. (client, y)) (order_range_bytes r) r
          (rw same at (Reads-order_range r hr)))

  write_clients_bytes :
      (self : DeleteSet) (ks : List ℕ) (all : All (Present self) ks) (encoder : Bytes)
      → write_clients encoder self ks
        ≡ ok (encoder ++ concat_map deletes_bytes (entries normal self ks all))
  unfolding write_clients entries write_entry
  write_clients_bytes self [] all encoder = rw append-nil
  write_clients_bytes self (k ∷ ks) ((r, e), all) encoder =
      let rest = concat_map deletes_bytes (entries normal self ks all) in
      rw (
        e,
        write_clients_bytes self ks all (write_order_range (write_var_u64 encoder k) r),
        write_order_range_bytes (write_var_u64 encoder k) r,
        write_var_u64-varint encoder k,
        order_range_bytes-normal r,
        append_assoc (encoder ++ varint k) (order_range_bytes r) rest,
        append_assoc encoder (varint k) (order_range_bytes r ++ rest),
        append_assoc (varint k) (order_range_bytes r) rest,
      )

  normal-IsNormalEntry :
      (k : ℕ) (r : OrderRange) → IsU64 k × IsU64OrderRange r → IsNormalEntry (k, normal r)
  unfolding normal make_single
  normal-IsNormalEntry k (range r) (hk, h) = (hk, h, refl)
  normal-IsNormalEntry k (fragment []) (hk, h) = (hk, h, refl)
  normal-IsNormalEntry k (fragment (r ∷ [])) (hk, ((h, _), _)) = (hk, h, refl)
  normal-IsNormalEntry k (fragment (r ∷ q ∷ rs)) (hk, h) = (hk, h, refl)

  entry_of :
      (self : DeleteSet) (client : ℕ) (found : Bool)
      → has (sort_descending (keys self)) client ≡ found
      → (if found then map_entry normal (get self client) else get [] client)
        ≡ map_entry normal (get self client)
  unfolding get
  entry_of self client true e = refl
  entry_of self client false e = unfold get in rw (clients_complete self client e)

  -- Clients and bounds are u64, and the clients are counted by one.
  abbrev pub IsU64DeleteSet : DeleteSet → Type 0
  IsU64DeleteSet self = All (λ e. IsU64 e.0 × IsU64OrderRange e.1) self × IsU64 (length self)

  -- Where clients, bounds and the number of clients are u64 and no client has 2 ^ 59 ranges or
  -- more, `DeleteSet::write` returns, and from its bytes, with any others behind them,
  -- `DeleteSet::read` gives a set that has the same ranges for every client, where a fragment of
  -- one range is a range, and leaves the others.
  pub read-write_delete_set :
      (self : DeleteSet) (rest : Bytes)
      → IsU64DeleteSet self
      → (bytes : Bytes) × (self' : DeleteSet) × (write [] self ≡ ok bytes)
        × (read (RawDecoder_new (bytes ++ rest)) ≡ ok (self', between bytes rest))
        × ((client : ℕ) → get self' client ≡ map_entry normal (get self client))
  unfolding write read RawDecoder_new
  read-write_delete_set self rest (all, count) =
      let ks = sort_descending (keys self) in
      let present = clients-Present self in
      let es = entries normal self ks present in
      let same : length es ≡ length self =
        length-entries normal self ks present ∙ length-clients self in
      let bytes = varint (length self) ++ concat_map deletes_bytes es in
      (
        bytes,
        insert_all [] es,
        rw (
          write_clients_bytes self ks present (write_var_u64 [] (length self)),
          write_var_u64-varint [] (length self),
        ),
        Reads-bind read_u64 (λ n. read_entries read_deletes n []) (varint (length self))
            (concat_map deletes_bytes es) (length self) (Reads-u64 (length self) count)
            (rw (← same) (
              Reads-entries read_deletes deletes_bytes IsNormalEntry Reads-deletes es [] (
                All-entries normal (λ e. IsU64 e.0 × IsU64OrderRange e.1) IsNormalEntry
                  normal-IsNormalEntry self ks present all)))
            [] rest,
        λ client.
            get-entries normal self ks present [] client
            ∙ entry_of self client (has ks client) refl,
      )
