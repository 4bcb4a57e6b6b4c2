-- ===== src/LinkedLog/Examples.antt =====
-- Two entries, and the theorems applied to them.
use yellowstone_faithful.Prelude.{◌≡◌, [], ◌∷◌, ◌++◌, ok, arith}
use yellowstone_faithful.LinkedLog.{
  OffsetAndSizeAndSlot, append_uvarint, bytes, from_bytes, slice_from_bytes,
}
use yellowstone_faithful.LinkedLog.Entries.{
  Fits, bytes_all, from_bytes-bytes, slice_from_bytes-bytes_all,
}

abbrev entry : OffsetAndSizeAndSlot
entry = record { offset = 300; size = 5; slot = 206459118 }

entry-Fits : Fits entry
entry-Fits = (omega arith, omega arith, omega arith)

from_bytes-bytes_example : from_bytes (bytes entry) ≡ ok entry
from_bytes-bytes_example = from_bytes-bytes entry entry-Fits

slice_from_bytes-bytes_all_example :
    (slice_from_bytes (bytes_all (entry ∷ entry ∷ [])) ≡ ok (entry ∷ entry ∷ []))
    × (slice_from_bytes (bytes_all (entry ∷ entry ∷ []) ++ append_uvarint [] 300)
        ≡ ok (entry ∷ entry ∷ []))
    × (slice_from_bytes (bytes_all (entry ∷ entry ∷ []) ++ append_uvarint (append_uvarint [] 300) 5)
        ≡ ok (entry ∷ entry ∷ []))
slice_from_bytes-bytes_all_example =
    slice_from_bytes-bytes_all (entry ∷ entry ∷ []) 300 5 (entry-Fits, (entry-Fits, tt))
      (omega arith) (omega arith)
