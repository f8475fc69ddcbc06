-- ===== src/Qcow/Snapshot/Utf8.antt =====
-- `String::from_utf8` accepts the well-formed UTF-8 byte sequences (RFC 3629, section 4).
use goldboot.Base.{ℕ, Bool, true, false, ◌&&◌, List, [], ◌∷◌, if◌then◌else◌, ltb, leb, ◌==◌}

abbrev Ranges : Type 0
Ranges = List (ℕ × ℕ)

abbrev tail_byte : ℕ × ℕ
tail_byte = (0x80, 0xbf)

-- The ranges of the bytes that must follow a first byte; `[(1, 0)]` for a byte that is none.
abbrev after_first : ℕ → Ranges
after_first b =
    if ltb b 0x80
    then []
    else if ltb b 0xc2
    then (1, 0) ∷ []
    else if ltb b 0xe0
    then tail_byte ∷ []
    else if b == 0xe0
    then (0xa0, 0xbf) ∷ tail_byte ∷ []
    else if b == 0xed
    then (0x80, 0x9f) ∷ tail_byte ∷ []
    else if ltb b 0xf0
    then tail_byte ∷ tail_byte ∷ []
    else if b == 0xf0
    then (0x90, 0xbf) ∷ tail_byte ∷ tail_byte ∷ []
    else if ltb b 0xf4
    then tail_byte ∷ tail_byte ∷ tail_byte ∷ []
    else if b == 0xf4
    then (0x80, 0x8f) ∷ tail_byte ∷ tail_byte ∷ []
    else (1, 0) ∷ []

utf8_from : Ranges → List ℕ → Bool
utf8_from [] [] = true
utf8_from (r ∷ rs) [] = false
utf8_from [] (b ∷ bs) = utf8_from (after_first b) bs
utf8_from ((lo, hi) ∷ rs) (b ∷ bs) = leb lo b && leb b hi && utf8_from rs bs

unfoldable pub is_utf8 : List ℕ → Bool
unfolding utf8_from
is_utf8 bs = utf8_from [] bs
