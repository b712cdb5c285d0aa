-- ===== src/Runs/DocRuns.antt =====
-- The theorems on ranges, delete sets, state vectors and ids at concrete inputs.
use octo_base.Base.{ℕ, ◌≡◌, refl, true, ◌||◌, some, [], ◌∷◌, ◌++◌, arith}
use octo_base.Base.Result.{ok}
use octo_base.Crates.{Bytes}
use octo_base.Doc.Client.{get}
use octo_base.Doc.Io.{RawDecoder_new}
use octo_base.Doc.Io.Reads.{between}
use octo_base.Doc.OrderRange.{
  Range, OrderRange, range, fragment, contains, in_range, push, squash, is_continuous_range, locate,
}
use octo_base.Doc.OrderRange.Membership.{push_total}
use octo_base.Doc.OrderRange.Squash.{squash-IsApart, IsApart}
use octo_base.Doc.OrderRange.Overlap.{Touches, push_leaves_overlap}
use octo_base.Doc.StateVector
use octo_base.Doc.StateVector.{
  StateVector, get_clock, set_max, merge_with, merged, get_clock-set_max, get-merge_with,
}
use octo_base.Doc.StateVector.RoundTrip.{read-write_state_vector}
use octo_base.Doc.DeleteSet
use octo_base.Doc.DeleteSet.{DeleteSet, read_order_range, add_range, batch_add_ranges, merge_into}
use octo_base.Doc.DeleteSet.Holds.{holds, merge_into_total}
use octo_base.Doc.DeleteSet.RoundTrip.{normal, read-write_delete_set}
use octo_base.Doc.DeleteSet.Clients.{map_entry}
use octo_base.Runs.Host.{host, host_search}

abbrev span : ℕ → ℕ → Range
span start end = record { start = start; end = end }

abbrev three_spans : OrderRange
three_spans = fragment (span 0 10 ∷ span 12 14 ∷ span 16 20 ∷ [])

push_total_example :
    (next : OrderRange) × (push three_spans (span 10 12) ≡ some next)
    × ((clock : ℕ)
        → contains next clock ≡ (contains three_spans clock || in_range (span 10 12) clock))
push_total_example = push_total three_spans (span 10 12)

squash-IsApart_example : IsApart (squash (fragment (span 0 10 ∷ span 5 8 ∷ span 12 14 ∷ [])))
squash-IsApart_example =
    squash-IsApart (span 0 10 ∷ span 5 8 ∷ span 12 14 ∷ [])
      (omega arith, omega arith, (omega arith, omega arith, (omega arith, omega arith, tt)))

touches : Touches (span 0 10) (span 12 14) (span 16 20) (span 5 18)
touches = record {
  a_before_b = omega arith;
  b_before_c = omega arith;
  a_le = omega arith;
  b_le = omega arith;
  c_le = omega arith;
  r_from = omega arith;
  r_to = omega arith;
}

push_leaves_overlap_example :
    (x y : Range) × (push three_spans (span 5 18) ≡ some (fragment (x ∷ y ∷ [])))
    × (is_continuous_range x y ≡ true)
unfolding locate is_continuous_range
push_leaves_overlap_example =
    push_leaves_overlap (span 0 10) (span 12 14) (span 16 20) (span 5 18) 0 touches refl

abbrev seen : StateVector
seen = (7, 30) ∷ (2, 5) ∷ []

read-write_state_vector_example :
    (self' : StateVector) × (StateVector.read (RawDecoder_new (StateVector.write [] seen ++ 1 ∷ []))
      ≡ ok (self', between (StateVector.write [] seen) (1 ∷ [])))
    × ((client : ℕ) → get self' client ≡ get seen client)
unfolding get
read-write_state_vector_example = read-write_state_vector seen (1 ∷ []) (
  (refl, (refl, tt)),
  ((omega arith, omega arith), ((omega arith, omega arith), tt)),
  omega arith,
)

abbrev deleted_clocks : DeleteSet
deleted_clocks = (7, range (span 0 4)) ∷ (3, fragment (span 1 2 ∷ span 5 9 ∷ [])) ∷ []

merge_into_total_example :
    (next : DeleteSet) × (merge_into deleted_clocks deleted_clocks ≡ some next)
    × ((j clock : ℕ)
        → holds next j clock ≡ (holds deleted_clocks j clock || holds deleted_clocks j clock))
unfolding get
merge_into_total_example = merge_into_total deleted_clocks deleted_clocks (refl, (refl, tt))

read-write_delete_set_example :
    (bytes : Bytes) × (self' : DeleteSet) × (DeleteSet.write [] deleted_clocks ≡ ok bytes)
    × (DeleteSet.read (RawDecoder_new (bytes ++ 1 ∷ [])) ≡ ok (self', between bytes (1 ∷ [])))
    × ((client : ℕ) → get self' client ≡ map_entry normal (get deleted_clocks client))
read-write_delete_set_example = read-write_delete_set deleted_clocks (1 ∷ []) (
  (
    (omega arith, (omega arith, omega arith)),
    (
      (omega arith, (((omega arith, omega arith), ((omega arith, omega arith), tt)), omega arith)),
      tt,
    ),
  ),
  omega arith,
)
