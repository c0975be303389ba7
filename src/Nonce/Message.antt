-- ===== src/Nonce/Message.antt =====
-- The message of a nonce that is signed and verified, and its protobuf form (anonpay/nonce.go).
use openpcc.Base.{ℕ, ◌^◌, ◌<◌, ◌≡◌, some, List, ◌++◌, length, ok, arith}
use openpcc.Base.Int.{ℤ, pos, negsuc}
use openpcc.Nonce.{
  Nonce, nonce_len, uint64_of, big_endian, blind_bytes, unmarshal_proto, marshal_proto,
}

-- The range of an int64.
abbrev pub IsInt64 : ℤ → Type 0
IsInt64 (pos n) = n < 2 ^ 63
IsInt64 (negsuc n) = n < 2 ^ 63

uint64_injective : (a b : ℤ) → IsInt64 a → IsInt64 b → uint64_of a ≡ uint64_of b → a ≡ b
unfolding uint64_of
uint64_injective a b ha hb h = ground arith

uint64_bound : (a : ℤ) → uint64_of a < 2 ^ 64
unfolding uint64_of
uint64_bound (pos n) = omega arith
uint64_bound (negsuc n) = omega arith

digits_injective :
    (x y : ℕ) (xs ys : List ℕ)
    → x < 2 ^ 64
    → y < 2 ^ 64
    → big_endian x ++ xs ≡ big_endian y ++ ys
    → (x ≡ y) × (xs ≡ ys)
unfolding big_endian
digits_injective x y xs ys hx hy h = ground arith

-- Nonces with int64 timestamps and the same message have the same timestamp and the same random bytes.
pub blind_bytes_injective :
    (n m : Nonce)
    → IsInt64 n.timestamp
    → IsInt64 m.timestamp
    → blind_bytes n ≡ blind_bytes m
    → (n.timestamp ≡ m.timestamp) × (n.nonce ≡ m.nonce)
unfolding blind_bytes
blind_bytes_injective n m hn hm h =
    let (stamp, random) =
      digits_injective (uint64_of n.timestamp) (uint64_of m.timestamp) n.nonce m.nonce
        (uint64_bound n.timestamp) (uint64_bound m.timestamp) h in
    (uint64_injective _ _ hn hm stamp, random)

-- A nonce of the right length is read back from its protobuf; the receiver's own mark stays.
pub unmarshal_proto-marshal_proto :
    (n m : Nonce)
    → length n.nonce ≡ nonce_len
    → unmarshal_proto m (some (marshal_proto n))
      ≡ ok (record n { unsafe_increment = m.unsafe_increment })
unfolding unmarshal_proto marshal_proto
unmarshal_proto-marshal_proto n m h = ground arith
