-- ===== src/Codec.antt =====
-- The encoders of Go's standard library that the Marshal, Unmarshal and Gob methods call:
-- encoding/json, encoding/json/v2 and encoding/gob, at slices of an element type.
use go_collections.Prelude.{◌≡◌, refl, Option, none, some, List}

-- One encoder with its decoder; `none` is an error.
pub record Codec {ℓ} (A : Type ℓ) (Bytes : Type 0) : Type ℓ where
  pub encode : List A → Option Bytes
  pub decode : Bytes → Option (List A)

-- A decoder reads back what its encoder writes.
pub record IsCodec {ℓ} {A : Type ℓ} {Bytes : Type 0} (f : Codec A Bytes) : Type ℓ where
  pub reads_back :
      (xs : List A) (bytes : Bytes) → f.encode xs ≡ some bytes → f.decode bytes ≡ some xs

-- What holds of the result where there is no error.
abbrev pub Whenever {ℓ κ} : {A : Type ℓ} → Option A → (A → Type κ) → Type κ
Whenever none P = Unit
Whenever (some x) P = P x

-- What decoding gives after an encoding that meets no error.
pub decoded {ℓ κ} :
    {A : Type ℓ} {Bytes : Type 0} {f : Codec A Bytes} {P : Bytes → Type κ}
    → IsCodec f
    → (xs : List A) → ((bytes : Bytes) → f.decode bytes ≡ some xs → P bytes)
    → Whenever (f.encode xs) P
decoded {f = f} {P = P} law xs h = go (f.encode xs) refl
  where
    go : (o : Option _) → f.encode xs ≡ o → Whenever o P
    go none e = tt
    go (some bytes) e = h bytes (law.reads_back xs bytes e)
