-- ===== src/Pending/Hash.antt =====
-- The shard of a user name: `shardIndex` and `nextPowerOfTwo` of
-- cdmp-mini/internal/pkg/usercache/pending_state_memory.go, with Go's `hash/fnv`.
use Prim.Native.Nat.{bit_or, bit_xor}
use Prim.Native.Char.{Char, code}
use cdmp_mini.Base.{
  List, [], ◌∷◌, ◌++◌, ℕ, ◌+◌, ◌-◌, ◌*◌, ◌/◌, ◌%◌, ◌^◌, ◌<◌, String, ltb, leb, if◌then◌else◌, arith,
}
use cdmp_mini.Base.Text.{is_empty}

-- The UTF-8 bytes of a character.
utf8 : Char → List ℕ
utf8 c =
    let n = code c in
    if ltb n 0x80
    then n ∷ []
    else if ltb n 0x800
    then (0xc0 + n / 64) ∷ (0x80 + n % 64) ∷ []
    else if ltb n 0x10000
    then (0xe0 + n / 4096) ∷ (0x80 + n / 64 % 64) ∷ (0x80 + n % 64) ∷ []
    else (0xf0 + n / 262144) ∷ (0x80 + n / 4096 % 64) ∷ (0x80 + n / 64 % 64) ∷ (0x80 + n % 64) ∷ []

pub bytes : String → List ℕ
bytes String.[] = []
bytes (String.◌∷◌ c s) = utf8 c ++ bytes s

-- The loop of `fnv.New32a().Write`.
fnv_from : ℕ → List ℕ → ℕ
fnv_from h [] = h
fnv_from h (b ∷ bs) = fnv_from (bit_xor h b * 16777619 % 2 ^ 32) bs

unfoldable pub fnv32a : String → ℕ
unfolding utf8 bytes fnv_from
fnv32a s = fnv_from 2166136261 (bytes s)

-- `n >> k`
abbrev or_shifted : ℕ → ℕ → ℕ
or_shifted n k = bit_or n (n / 2 ^ k)

unfoldable pub next_power_of_two : ℕ → ℕ
next_power_of_two n =
    if leb n 1
    then 1
    else or_shifted (or_shifted (or_shifted (or_shifted (or_shifted (n - 1) 1) 2) 4) 8) 16 + 1

-- The mask is one less than a power of two, so `value & mask` is the remainder. On a 64-bit machine
-- `int(h.Sum32())` is never negative.
unfoldable pub shard_index : ℕ → String → ℕ
unfolding fnv32a
shard_index mask key = if is_empty key then 0 else fnv32a key % (mask + 1)

pub shard_index-lt : (mask : ℕ) (key : String) → shard_index mask key < mask + 1
unfolding shard_index
shard_index-lt mask key = ground arith
