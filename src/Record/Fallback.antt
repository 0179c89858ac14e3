-- ===== src/Record/Fallback.antt =====
-- fallbackFingerprint of src/utils/record_json.cpp.
use Prim.Native.String.{String}
use Prim.Native.Nat.{bit_xor}
use caudio.Prelude.{ℕ, zero, suc, ◌+◌, ◌-◌, ◌*◌, ◌/◌, ◌%◌, ◌^◌, List, [], ◌∷◌, word, bytes}

-- The hash of the path's bytes, in 64-bit words.
hash_bytes : ℕ → List ℕ → ℕ
hash_bytes h [] = h
hash_bytes h (c ∷ cs) = hash_bytes (bit_xor h c * 1099511628211 % word) cs

-- `out[i]` for `i` from `32 - n` on.
hash_out : ℕ → ℕ → List ℕ
hash_out zero h = []
hash_out (suc n) h =
    (h / 2 ^ ((31 - n) % 8 * 8) % 256) ∷ hash_out n ((h * 6364136223846793005 + 1) % word)

unfoldable pub fallback_fingerprint : String → List ℕ
unfolding hash_bytes hash_out
fallback_fingerprint path = hash_out 32 (hash_bytes 1469598103934665603 (bytes path))
