-- ===== src/Version/Codec.antt =====
-- The serialised form of a height, over the order-preserving varints of a library.
use eloan_peer.Prelude.{
  ℕ, ◌+◌, ◌<◌, ◌≡◌, refl, ◌++◌, append_assoc, length, length-append, Result, ok, ◌>>=◌,
}
use eloan_peer.Prelude.GoString.{GoString}
use eloan_peer.Strings.{slice_from, slice_from-append}
use eloan_peer.Version.{Height, new_height, IsUint64, two_64}

-- EncodeOrderPreservingVarUint64, and its inverse with the number of bytes that it has read.
pub record VarintCodec : Type 0 where
  pub encode : ℕ → GoString
  pub decode : GoString → Result (ℕ × ℕ)
  pub decode-encode :
      (n : ℕ) (rest : GoString) → n < two_64 → decode (encode n ++ rest) ≡ ok (n, length (encode n))

module _ (codec : VarintCodec) where
  unfoldable pub to_bytes : Height → GoString
  to_bytes h = codec.encode h.block_num ++ codec.encode h.tx_num

  unfoldable pub new_height_from_bytes : GoString → Result (Height × ℕ)
  unfolding new_height
  new_height_from_bytes b = do
    p ← codec.decode b
    rest ← slice_from p.1 b
    q ← codec.decode rest
    ok (new_height p.0 q.0, p.1 + q.1)

  -- A height of uint64 numbers, serialised before other bytes, is read back with its length.
  pub new_height_from_bytes-to_bytes :
      (h : Height) (rest : GoString)
      → IsUint64 h
      → new_height_from_bytes (to_bytes h ++ rest) ≡ ok (h, length (to_bytes h))
  unfolding new_height_from_bytes to_bytes
  new_height_from_bytes-to_bytes h rest f =
      let a = codec.encode h.block_num in
      let b = codec.encode h.tx_num in
      rw
        (
          append_assoc a b rest,
          codec.decode-encode h.block_num (b ++ rest) f.block_fits,
          slice_from-append a (b ++ rest),
          codec.decode-encode h.tx_num rest f.tx_fits,
          length-append a b,
        )
        refl
