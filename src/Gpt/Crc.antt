-- ===== src/Gpt/Crc.antt =====
-- goldboot/src/gpt.rs, `crc32`: the checksum of a GPT header and of its entries, by a table of 256
-- words.
pub mod Serial
use goldboot.Base.{
  ℕ, zero, suc, ◌/◌, List, [], ◌∷◌, bit_and, bit_xor, get_or, ◌==◌, if◌then◌else◌, ◌≡◌, refl,
}

-- One bit of a word of the table.
unfoldable pub table_step : ℕ → ℕ
table_step c = if bit_and c 1 == 0 then c / 2 else bit_xor 0xedb88320 (c / 2)

unfoldable pub table_steps : ℕ → ℕ → ℕ
table_steps zero c = c
table_steps (suc k) c = table_steps k (table_step c)

-- n words of the table, from the one at i.
unfoldable pub table_from : ℕ → ℕ → List ℕ
table_from zero i = []
table_from (suc n) i = table_steps 8 i ∷ table_from n (suc i)

unfoldable pub crc_bytes : List ℕ → ℕ → List ℕ → ℕ
crc_bytes table crc [] = crc
crc_bytes table crc (b ∷ bytes) =
    crc_bytes table (bit_xor (get_or table (bit_and (bit_xor crc b) 0xff) 0) (crc / 256)) bytes

unfoldable pub crc32 : List ℕ → ℕ
crc32 bytes = bit_xor (crc_bytes (table_from 256 0) 0xffffffff bytes) 0xffffffff
