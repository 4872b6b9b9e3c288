-- ===== src/AgentInfo/Fields.antt =====
-- A field of the tail of `AgentInfo`, lib.rs, at an offset of a frame.
use review_protocol.Prelude.{
  ◌<◌, ℕ, zero, suc, ◌+◌, ◌≡◌, refl, sym, ap, ◌∙◌, ok, none, some, [], ◌∷◌, ◌++◌, length, drop,
  drop-append, length-append, and_then, arith, String, map_err,
}
use review_protocol.Wire.{Bytes}
use review_protocol.AgentInfo.{AgentInfoDecodeError, Bincode, tail_value, decode_tail_field}

-- What bincode promises of a value: its encoding takes a byte at least, and it decodes to the value,
-- whatever follows it, and takes up exactly its own bytes.
pub record Codes {E T : Type 0} (coding : Bincode E T) (x : T) : Type 0 where
  pub not_empty : 0 < length (coding.encode x)
  pub decode_encode :
      (rest : Bytes) → coding.decode (coding.encode x ++ rest) ≡ ok (x, length (coding.encode x))

-- The bytes from an offset on.
abbrev pub At : Bytes → ℕ → Bytes → Type 0
At buf offset rest = drop offset buf ≡ rest

drop-nil : (n : ℕ) → drop {A = ℕ} n [] ≡ []
drop-nil zero = refl
drop-nil (suc n) = refl

drop-add : (n m : ℕ) (xs : Bytes) → drop (n + m) xs ≡ drop m (drop n xs)
drop-add zero m xs = let e : zero + m ≡ m = omega arith in ap (λ k. drop k xs) e
drop-add (suc n) m [] = drop-nil (suc n + m) ∙ sym (drop-nil m)
drop-add (suc n) m (x ∷ xs) =
    let e : suc n + m ≡ suc (n + m) = omega arith in ap (λ k. drop k (x ∷ xs)) e ∙ drop-add n m xs

pub At-next :
    (buf : Bytes) (offset : ℕ) (encoded rest : Bytes)
    → At buf offset (encoded ++ rest)
    → At buf (offset + length encoded) rest
At-next buf offset encoded rest h =
    drop-add offset (length encoded) buf ∙ ap (drop (length encoded)) h ∙ drop-append encoded rest

module _ {E T : Type 0} (coding : Bincode E T) (field : String) where
  tail_value-some :
      (offset : ℕ) (x : T) (rest bytes : Bytes)
      → Codes coding x
      → bytes ≡ coding.encode x ++ rest
      → tail_value coding field offset bytes ≡ ok (some x, offset + length (coding.encode x))
  unfolding tail_value
  tail_value-some offset x rest [] codes h =
      absurd (omega (arith, codes.not_empty, ap length h, length-append (coding.encode x) rest))
  tail_value-some offset x rest (b ∷ bs) codes h =
      ap
        (λ r.
          and_then (map_err (AgentInfoDecodeError.tail field) r) (λ v. ok (some v.0, offset + v.1)))
        (ap coding.decode h ∙ codes.decode_encode rest)

  pub decode_tail_field-some :
      (buf : Bytes) (offset : ℕ) (x : T) (rest : Bytes)
      → Codes coding x
      → At buf offset (coding.encode x ++ rest)
      → decode_tail_field coding field buf offset ≡ ok (some x, offset + length (coding.encode x))
  unfolding decode_tail_field
  decode_tail_field-some buf offset x rest codes h =
      tail_value-some offset x rest (drop offset buf) codes h

  pub decode_tail_field-none :
      (buf : Bytes) (offset : ℕ)
      → At buf offset []
      → decode_tail_field coding field buf offset ≡ ok (none, offset)
  unfolding decode_tail_field
  decode_tail_field-none buf offset h = ap (tail_value coding field offset) h
