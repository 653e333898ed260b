-- ===== src/Key.antt =====
-- The 64-bit key of a link tag, and its hash (modttpoe/tags.h struct ttp_link_tag,
-- modttpoe/tags.c, include/ttp.h). A key is its raw value `_rkid`, little-endian with the bit-fields
-- from the low bit up, as on the machines that the module is built for.
pub mod Fields
pub mod Hash
use Prim.Native.Nat.{bit_and, bit_or, bit_xor}
use ttpoe.Common.{
  ℕ, ◌+◌, ◌*◌, ◌/◌, ◌%◌, ◌^◌, Bool, true, false, Option, none, some, leb, ◌==◌, ◌||◌, if◌then◌else◌,
}

-- Bits `lo` to `lo + w - 1` of a key, and their assignment.
abbrev field : ℕ → ℕ → ℕ → ℕ
field lo w k = k / 2 ^ lo % 2 ^ w

abbrev put_field : ℕ → ℕ → ℕ → ℕ → ℕ
put_field lo w v k = k / 2 ^ (lo + w) * 2 ^ (lo + w) + v % 2 ^ w * 2 ^ lo + k % 2 ^ lo

abbrev pub vci : ℕ → ℕ
vci k = field 0 2 k

-- `lt.mac[i]` for i below 3.
abbrev pub mac_byte : ℕ → ℕ → ℕ
mac_byte i k = k / 2 ^ (8 + 8 * i) % 256

abbrev pub oct : ℕ → ℕ
oct k = field 40 3 k

abbrev pub rng : ℕ → ℕ
rng k = field 44 4 k

abbrev pub bkt : ℕ → ℕ
bkt k = field 48 1 k

abbrev pub gwf : ℕ → ℕ
gwf k = field 49 1 k

abbrev pub tip : ℕ → ℕ
tip k = field 50 1 k

abbrev pub hvl : ℕ → ℕ
hvl k = field 56 8 k

-- `_rkey`: the part that orders the tree.
abbrev pub rkey : ℕ → ℕ
rkey k = k % 2 ^ 32

abbrev pub set_bkt : ℕ → ℕ → ℕ
set_bkt v k = put_field 48 1 v k

abbrev pub set_gwf : ℕ → ℕ → ℕ
set_gwf v k = put_field 49 1 v k

abbrev pub set_tip : ℕ → ℕ → ℕ
set_tip v k = put_field 50 1 v k

abbrev pub set_hvl : ℕ → ℕ → ℕ
set_hvl v k = put_field 56 8 v k

abbrev pub bit : Bool → ℕ
bit true = 1
bit false = 0

-- TTP_VC_ID__IS_VALID: at most TTP_MAX_VCID.
abbrev pub vc_is_valid : ℕ → Bool
vc_is_valid vc = leb vc 2

-- One of the three swaps: fields under `hi` go down by `n` bits, those under `lo` go up.
swap_bits : ℕ → ℕ → ℕ → ℕ → ℕ
swap_bits hi lo n x = bit_or (bit_and (bit_and x hi / 2 ^ n) lo) (bit_and (bit_and x lo * 2 ^ n) hi)

unfoldable pub reverse_bits : ℕ → ℕ
unfolding swap_bits
reverse_bits x =
    if x == 0 || x == 255
    then x
    else swap_bits 0xf0 0x0f 4 (swap_bits 0xcc 0x33 2 (swap_bits 0xaa 0x55 1 x))

-- The `u8` result is written out.
unfoldable pub index_hash_calc : (ℕ → ℕ) → ℕ
unfolding reverse_bits
index_hash_calc mac = bit_and (bit_xor (bit_xor (mac 3) (reverse_bits (mac 4))) (mac 5)) 0xff % 256

-- `none` is the null pointer.
unfoldable pub tag_key_make : Option (ℕ → ℕ) → ℕ → Bool → Bool → ℕ
unfolding index_hash_calc
tag_key_make none vc gw t3 = 0
tag_key_make (some mac) vc gw t3 =
    if vc_is_valid vc
    then put_field 40 3 0 (
        put_field 44 4 0 (
          put_field 48 1 0 (
            put_field 24 8 (mac 5) (
              put_field 16 8 (mac 4) (
                put_field 8 8 (mac 3) (
                  put_field 50 1 (bit t3) (
                    put_field 49 1 (bit gw)
                      (put_field 0 2 vc (put_field 56 8 (index_hash_calc mac) 0)))))))))
    else 0
