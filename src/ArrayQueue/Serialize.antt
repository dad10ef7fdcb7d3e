-- ===== src/ArrayQueue/Serialize.antt =====
-- MarshalJSON, UnmarshalJSON, MarshalJSONTo, UnmarshalJSONFrom, GobEncode and GobDecode.
-- A decoder returns whether there was no error, and the queue.
use go_collections.Prelude.{ℕ, ◌+◌, ◌≡◌, refl, Bool, true, false, Option, none, some, length, arith}
use go_collections.Prelude.Outcome.{Outcome, returned, Returns, returns, ◌>>=◌}
use go_collections.Prelude.Slice.{Zero, slice, slice_suffix}
use go_collections.Codec.{Codec, IsCodec, Whenever, decoded}
use go_collections.ArrayQueue.{ArrayQueue}
use go_collections.ArrayQueue.Contents.{contents, IsValid, Shows}

module _ {ℓ} {A : Type ℓ} {Bytes : Type 0} (f : Codec A Bytes) where
  -- MarshalJSON; MarshalJSONTo and GobEncode are the same with their encoders.
  pub marshal : ArrayQueue A → Outcome (Option Bytes)
  marshal q = slice q.items q.head (length q.items) >>= λ rest. returned (f.encode rest)

  -- UnmarshalJSON; UnmarshalJSONFrom and GobDecode are the same with their decoders. By how much
  -- the capacity of the slice that they make exceeds its length is an argument.
  pub unmarshal : ℕ → ArrayQueue A → Bytes → Bool × ArrayQueue A
  unmarshal spare q bytes = elim (f.decode bytes) [
    | some elements ↦ (true, record { items = elements; room = length elements + spare; head = 0 })
    | none ↦ (false, q)
  ]

module _ {ℓ} {A : Type ℓ} ⦃z : Zero A⦄ where
  -- Encoding a valid queue returns; where it meets no error, decoding into any queue succeeds, and
  -- gives a valid queue of the same contents.
  pub unmarshal-marshal_queue :
      {Bytes : Type 0} (f : Codec A Bytes) (spare : ℕ) (q target : ArrayQueue A)
      → IsCodec f
      → IsValid q
      → Returns
          (λ r. Whenever r λ bytes.
            ((unmarshal f spare target bytes).0 ≡ true)
            × Shows (contents q) (unmarshal f spare target bytes).1)
          (marshal f q)
  unfolding marshal unmarshal
  unmarshal-marshal_queue f spare q target law v =
      rw (slice_suffix q.items q.head (omega (arith, v.half))) (
        returns (
          decoded law (contents q) λ bytes e.
            rw (unmarshal, e) (refl, (record { half = omega arith; fits = omega arith }, refl))))
