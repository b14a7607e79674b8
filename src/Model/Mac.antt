-- ===== src/Model/Mac.antt =====
-- crates/model/src/vm.rs: the MAC of a NIC, computed from the VM's identifier and the NIC's index.
use Prim.Native.Nat.{bit_xor}
use Prim.Native.String.{String, ◌++◌ as ◌<>◌}
use vquasar.Base.{ℕ, ◌*◌, ◌/◌, ◌%◌, ◌^◌, zero, suc, List, [], ◌∷◌}

abbrev hex_digits : List String
hex_digits =
    "0" ∷ "1" ∷ "2" ∷ "3" ∷ "4" ∷ "5" ∷ "6" ∷ "7" ∷ "8" ∷ "9" ∷ "a" ∷ "b" ∷ "c" ∷ "d" ∷ "e" ∷ "f"
    ∷ []

abbrev digit_in : List String → ℕ → String
digit_in [] n = ""
digit_in (d ∷ ds) zero = d
digit_in (d ∷ ds) (suc n) = digit_in ds n

abbrev hex_digit : ℕ → String
hex_digit n = digit_in hex_digits n

-- `:{:02x}` of a byte.
unfoldable pub hex_byte : ℕ → String
hex_byte b = ":" <> (hex_digit (b / 16) <> hex_digit (b % 16))

unfoldable pub mixed : ℕ → ℕ → ℕ
mixed vm_id index = bit_xor vm_id (index * 0x9E3779B97F4A7C15F39CC0605CEDC835 % 2 ^ 128)

-- The byte of a number that has the given place, the lowest first.
unfoldable pub byte_at : ℕ → ℕ → ℕ
byte_at n i = n / 256 ^ i % 256

unfoldable pub allocate_mac : ℕ → ℕ → String
unfolding mixed byte_at hex_byte
allocate_mac vm_id index =
    let n = mixed vm_id index in
    "02"
    <> (hex_byte (byte_at n 0)
        <> (hex_byte (byte_at n 1)
            <> (hex_byte (byte_at n 2) <> (hex_byte (byte_at n 3) <> hex_byte (byte_at n 4)))))

t : String
unfolding allocate_mac
t = allocate_mac 0x123456789abcdef0 1
