-- ===== src/StateDb/Value.antt =====
-- core/ledger/kvledger/txmgmt/statedb/util.go: the stored form of a value with its version.
use eloan_peer.Prelude.{◌≡◌, refl, Option, none, some, [], ◌++◌, Result, ok, err, panic, ◌>>=◌}
use eloan_peer.Prelude.GoString.{GoString}
use eloan_peer.Strings.{slice_from, slice_from-append}
use eloan_peer.Version.{Height, IsUint64}
use eloan_peer.Version.Codec.{
  VarintCodec, to_bytes, new_height_from_bytes, new_height_from_bytes-to_bytes,
}

abbrev pub bytes_of : Option GoString → GoString
bytes_of none = []
bytes_of (some s) = s

module _ (codec : VarintCodec) where
  -- A nil version is dereferenced.
  unfoldable pub encode_value : Option GoString → Option Height → Result GoString
  encode_value value none = err panic
  encode_value value (some version) = ok (to_bytes codec version ++ bytes_of value)

  unfoldable pub decode_value : GoString → Result (GoString × Height)
  decode_value encoded = do
    p ← new_height_from_bytes codec encoded
    value ← slice_from p.1 encoded
    ok (value, p.0)

  -- What is stored of a value with a version of uint64 numbers reads back as the version and the
  -- bytes of the value, none for nil.
  pub decode_value-encode_value :
      (value : Option GoString) (version : Height)
      → IsUint64 version
      → (encode_value value (some version) >>= decode_value) ≡ ok (bytes_of value, version)
  unfolding encode_value decode_value
  decode_value-encode_value value version f =
      rw
        (
          new_height_from_bytes-to_bytes codec version (bytes_of value) f,
          slice_from-append (to_bytes codec version) (bytes_of value),
        )
        refl
