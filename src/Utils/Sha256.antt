-- ===== src/Utils/Sha256.antt =====
-- src/utils/sha256.rs: the wrappers round the SHA-256 syscall, which hashes slices one after the
-- other.
use external_signature_progr.Base.{List, [], ◌∷◌, Bytes}
use external_signature_progr.Runtime.{Runtime}
use mathlib.Core.List.{flatten}

unfoldable pub hashv : Runtime → List Bytes → Bytes
hashv rt slices = rt.sha256 (flatten slices)

unfoldable pub hash : Runtime → Bytes → Bytes
unfolding hashv
hash rt bytes = hashv rt (bytes ∷ [])
