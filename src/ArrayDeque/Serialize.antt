-- ===== src/ArrayDeque/Serialize.antt =====
-- MarshalJSON, UnmarshalJSON, MarshalJSONTo, UnmarshalJSONFrom, GobEncode and GobDecode.
-- A decoder returns whether there was no error, and the deque.
use mathlib.Core.List.{append-nil}
use go_collections.Prelude.{
  ◌≡◌, refl, Bool, true, false, Option, none, some, List, length, replicate, length-replicate,
  drop_all, arith,
}
use go_collections.Prelude.Outcome.{Outcome, returned, Returns, returns, ◌>>=◌}
use go_collections.Prelude.Slice.{Zero, copy, copy_fits}
use go_collections.Codec.{Codec, IsCodec, Whenever, decoded}
use go_collections.ArrayDeque.{ArrayDeque, to_slice}
use go_collections.ArrayDeque.Ring.{contents, IsValid}
use go_collections.ArrayDeque.Grow.{to_slice-contents}
use go_collections.ArrayDeque.Front.{Shows}
use go_collections.ArrayDeque.Iterate.{filled-IsValid}

module _ {ℓ} {A : Type ℓ} ⦃z : Zero A⦄ where
  pub replace_from_slice : ArrayDeque A → List A → ArrayDeque A
  replace_from_slice d elements = record d {
    buf = (copy (replicate (length elements) z.zero_value) elements).0;
    head = 0;
    tail = 0;
    size = length elements;
  }

  module _ {Bytes : Type 0} (f : Codec A Bytes) where
    -- MarshalJSON; MarshalJSONTo and GobEncode are the same with their encoders.
    pub marshal : ArrayDeque A → Outcome (Option Bytes)
    marshal d = to_slice d >>= λ elements. returned (f.encode elements)

    -- UnmarshalJSON; UnmarshalJSONFrom and GobDecode are the same with their decoders.
    pub unmarshal : ArrayDeque A → Bytes → Bool × ArrayDeque A
    unmarshal d bytes = elim (f.decode bytes) [
      | some elements ↦ (true, replace_from_slice d elements)
      | none ↦ (false, d)
    ]

  replace_from_slice-contents :
      (d : ArrayDeque A) (elements : List A) → Shows elements (replace_from_slice d elements)
  unfolding replace_from_slice
  replace_from_slice-contents d elements =
      let blank = length-replicate (length elements) z.zero_value in
      rw
        (
          copy_fits (replicate (length elements) z.zero_value) elements (omega arith),
          drop_all (length elements) (replicate (length elements) z.zero_value) (omega arith),
          append-nil elements,
        )
        (filled-IsValid elements (length elements) refl)

  -- Encoding a valid deque returns; where it meets no error, decoding into any deque succeeds, and
  -- gives a valid deque of the same contents.
  pub unmarshal-marshal_deque :
      {Bytes : Type 0} (f : Codec A Bytes) (d target : ArrayDeque A)
      → IsCodec f
      → IsValid d
      → Returns
          (λ r. Whenever r λ bytes.
            ((unmarshal f target bytes).0 ≡ true) × Shows (contents d) (unmarshal f target bytes).1)
          (marshal f d)
  unfolding marshal unmarshal
  unmarshal-marshal_deque f d target law v = rw (to_slice-contents d v) (
      returns (
        decoded law (contents d)
          λ bytes e. rw (unmarshal, e) (refl, replace_from_slice-contents target (contents d))))
