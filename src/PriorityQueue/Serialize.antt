-- ===== src/PriorityQueue/Serialize.antt =====
-- MarshalJSON, UnmarshalJSON, MarshalJSONTo, UnmarshalJSONFrom, GobEncode and GobDecode.
-- A decoder returns whether there was no error, and the queue.
use go_collections.Prelude.{◌≡◌, refl, Bool, true, false, Option, none, some, List}
use go_collections.Prelude.Outcome.{Outcome, returned, Returns, returns, Returns-then, ◌>>=◌}
use go_collections.Prelude.Slice.{Zero}
use go_collections.Comparator.{Comparator, IsComparator}
use go_collections.Codec.{Codec, IsCodec, Whenever, decoded}
use go_collections.PriorityQueue.{PriorityQueue, heapify}
use go_collections.PriorityQueue.Insert.{Holds}
use go_collections.PriorityQueue.Down.{heapify_orders}

module _ {ℓ} {A : Type ℓ} ⦃z : Zero A⦄ {Bytes : Type 0} (f : Codec A Bytes) where
  -- MarshalJSON; MarshalJSONTo and GobEncode are the same with their encoders.
  pub marshal : PriorityQueue A → Option Bytes
  marshal pq = f.encode pq.items

  -- UnmarshalJSON; UnmarshalJSONFrom and GobDecode are the same with their decoders.
  pub unmarshal : PriorityQueue A → Bytes → Outcome (Bool × PriorityQueue A)
  unmarshal pq bytes = elim pq.cmp [
    | none ↦ returned (false, pq)
    | some cmp ↦ elim (f.decode bytes) [
      | none ↦ returned (false, pq)
      | some elements ↦ heapify pq.cmp elements >>= λ d. returned (true, record pq { items = d })
    ]
  ]

module _ {ℓ} {A : Type ℓ} ⦃z : Zero A⦄ (cmp : Comparator A) (law : IsComparator cmp) where
  -- Decoding into a queue with a comparator what an encoding of any queue wrote succeeds, and gives
  -- a valid queue of exactly the elements that were encoded.
  pub unmarshal-marshal_priority :
      {Bytes : Type 0} (f : Codec A Bytes) (pq : PriorityQueue A) (old : List A)
      → IsCodec f
      → Whenever (marshal f pq) λ bytes.
        Returns
          (λ r. (r.0 ≡ true) × Holds cmp pq.items r.1)
          (unmarshal f (record { cmp = some cmp; items = old }) bytes)
  unfolding marshal unmarshal
  unmarshal-marshal_priority f pq old law' = decoded law' pq.items λ bytes d.
      rw (unmarshal, d)
        (Returns-then (heapify_orders cmp law pq.items)
          λ a s. returns (refl, (record { ordered = refl; heap = s.0 }, s.1)))

-- Without a comparator a decoder reports an error and leaves the queue alone.
unmarshal_nil {ℓ} :
    {A : Type ℓ} ⦃z : Zero A⦄ {Bytes : Type 0} (f : Codec A Bytes) (items : List A) (bytes : Bytes)
    → unmarshal f (record { cmp = none; items = items }) bytes
      ≡ returned (false, record { cmp = none; items = items })
unfolding unmarshal
unmarshal_nil f items bytes = refl
